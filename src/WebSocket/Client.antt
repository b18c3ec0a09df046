-- ===== src/WebSocket/Client.antt =====
-- shero/net/websocket/WSClient.cc: the handshake from the client's side, and messages both ways. What
-- the client does to the connection and the `TcpClient` under it is recorded in its state.
pub mod Agreement
pub mod Printed
pub mod Sending
use shero.Common.{
  ℕ, ◌+◌, Bool, true, false, not, ◌&&◌, Option, none, some, List, [], ◌∷◌, ◌++◌, ◌==◌,
  if◌then◌else◌,
}
use shero.Common.Bytes.{Bytes, codes, bytes_eq}
use shero.Base.Util.{random_string}
use shero.Buffer.{Buffer, retrieve_all_as_string}
use shero.Http.Status.{get}
use shero.Http.Message.{HttpRequest, HttpResponse, response_header, dump_request}
use shero.Net.Uri.{Uri}
use shero.Http.Client.Request.{construct_request}
use shero.Http.Client.Response.{ResponseParser, Parsed, parsed, null, looping, parse_response}
use shero.WebSocket.Frame.{Message, encode_frames}
use shero.WebSocket.Handshake.{accept_key}
use shero.WebSocket.Exchange.{Exchanged, exchanged, exchange}

-- `WSState`.
pub data WsState : Type 0 where
  no_state tcp http ws : WsState

pub record WsClient : Type 0 where
  pub connect : Bool
  pub key : Bytes
  pub state : WsState
  pub has_conn : Bool
  pub messages : List Message
  pub sent : List Bytes  -- `m_conn->send`
  pub disconnects : ℕ  -- `m_client.disconnect`
  pub opened : ℕ  -- calls of `m_connectionCallback`

-- The constructor.
unfoldable pub new_client : WsClient
new_client = record {
  connect = false;
  key = [];
  state = no_state;
  has_conn = false;
  messages = [];
  sent = [];
  disconnects = 0;
  opened = 0;
}

-- `disconnect`.
unfoldable pub disconnect : WsClient → WsClient
disconnect c =
    if c.connect
    then record c { connect = false; has_conn = false; disconnects = c.disconnects + 1 }
    else c

-- `sendHttp`, and the sending of `send`.
unfoldable pub send_text : Bytes → WsClient → WsClient
send_text msg c = record c { sent = c.sent ++ (msg ∷ []) }

-- The headers of `WSHandShake`, in the order of their `std::map`.
abbrev pub handshake_headers : Bytes → List (Bytes × Bytes)
handshake_headers key =
    (codes "Connection", codes "Upgrade")
    ∷ (codes "Sec-WebSocket-Key", key)
    ∷ (codes "Sec-WebSocket-Version", codes "13")
    ∷ (codes "Upgrade", codes "websocket")
    ∷ []

unfoldable pub handshake_request : Uri → Bytes → HttpRequest
handshake_request uri key = construct_request get uri (handshake_headers key) []

-- `send`.
unfoldable pub send : (ℕ → ℕ) → WsClient → WsClient
unfolding send_text
send rand c = send_text (encode_frames rand c.messages) (record c { messages = [] })

-- `sendWS`; `up` is `m_conn->isConnected()`.
unfoldable pub send_ws : (ℕ → ℕ) → Bool → Bytes → ℕ → Bool → WsClient → Bool × WsClient
unfolding send
send_ws rand up msg opcode fin c =
    let pushed = record c {
      messages = c.messages ++ (record { opcode = opcode; text = msg } ∷ []);
    } in
    let flushed = send rand pushed in
    if not (c.connect && up)
    then (false, c)
    else if not fin
    then (true, pushed)
    else (true, record flushed { messages = [] })

module _ (sha1 base64 : Bytes → Bytes) where
  -- `WSHandShake`.
  unfoldable pub ws_handshake : (ℕ → ℕ) → Uri → WsClient → WsClient
  unfolding handshake_request send_text
  ws_handshake rand uri c =
      let key = base64 (random_string rand 16) in
      send_text (dump_request (handshake_request uri key)) (record c { key = key; state = http })

  -- `onConnection`.
  unfoldable pub on_connection : (ℕ → ℕ) → Uri → Bool → WsClient → WsClient
  unfolding ws_handshake disconnect
  on_connection rand uri true c = ws_handshake rand uri (record c { has_conn = true; state = tcp })
  on_connection rand uri false c = disconnect c

  -- What `onMessage` does with the response.
  unfoldable pub accept_response : HttpResponse → WsClient → WsClient
  accept_response res c =
      let hashed = accept_key sha1 base64 c.key in
      if not (res.status == 101)
      then c
      else if not (bytes_eq (response_header res (codes "Sec-WebSocket-Accept") []) hashed)
      then record c { key = hashed }
      else record c { key = hashed; state = ws; connect = true; opened = c.opened + 1 }

  -- Behind the parser of responses; `none` where its fuel is spent.
  unfoldable pub after_response : Parsed → WsClient → Option WsClient
  unfolding accept_response
  after_response (parsed res) c = some (accept_response res c)
  after_response null c = some c
  after_response looping c = none

-- What `onMessage` comes to: the client and the buffer, with what the message callback was given; or
-- the parser of responses does not return; or the loop over messages is cut short.
pub data Received : Type 0 where
  received : WsClient → Buffer → List Message → Received
  not_parsed : Received
  cut_short : Exchanged Message → Received

unfoldable pub after_exchange : WsClient → Exchanged Message → Received
after_exchange c (exchanged ms b) = received c b ms
after_exchange c x = cut_short x

unfoldable pub with_buffer : Buffer → Option WsClient → Received
with_buffer b none = not_parsed
with_buffer b (some c) = received c b []

module _ (sha1 base64 : Bytes → Bytes) (alloc : ℕ → Bool) {P : Type 0} (rp : ResponseParser P) where
  -- `onMessage` in a state, with a message callback, and with fuel for the loops.
  unfoldable pub on_message_in : WsState → ℕ → Buffer → WsClient → Received
  unfolding after_response after_exchange with_buffer
  on_message_in no_state fuel b c = received c b []
  on_message_in tcp fuel b c = received c b []
  on_message_in http fuel b c =
      let (msg, left) = retrieve_all_as_string b in
      with_buffer left (after_response sha1 base64 (parse_response rp fuel msg []) c)
  on_message_in ws fuel b c = after_exchange c (exchange alloc (λ m. m) fuel b)

  unfoldable pub on_message : ℕ → Buffer → WsClient → Received
  unfolding on_message_in
  on_message fuel b c = on_message_in c.state fuel b c
