-- ===== src/WebSocket/Server.antt =====
-- shero/net/websocket/WSServer.cc, WSServlet.cc and WSDispatch::handle. A connection is a number. The
-- server's `m_conns` is the list of its entries; a connection's parser, which is its context, is an
-- argument and a result. A servlet is the function from a message to what its `handle` calls on the
-- connection, in order.
pub mod Isolation
use shero.Common.{
  ℕ, Bool, true, false, not, Option, none, some, List, [], ◌∷◌, ◌++◌, ◌==◌, if◌then◌else◌,
}
use shero.Common.Bytes.{Bytes, codes}
use shero.Buffer.{Buffer}
use shero.Dispatch.{Dispatch, get_matched_servlet}
use shero.Http.Headers.{same_key}
use shero.Http.Message.{
  HttpRequest, HttpResponse, request_header, set_response_header, new_response, dump_response,
}
use shero.Http.Parser.{
  HttpParser, new_parser, is_finished, reset, Outcome, returned, assert_failed, looping,
  parse_http_request,
}
use shero.Http.Server.{Call, send, shutdown, bad_request}
use shero.WebSocket.Frame.{Message, close_frame, encode_frame}
use shero.WebSocket.Handshake.{accept_key}
use shero.WebSocket.Exchange.{Exchanged, exchanged, interrupted, out_of_range, exchange}
use shero.WebSocket.Exchange.{looping as unfinished}

-- `TCP` and `WEBSOCKET`.
pub data Protocol : Type 0 where
  tcp websocket : Protocol

abbrev pub Conns : Type 0
Conns = List (ℕ × Protocol × Bytes)

-- `m_conns.find(it)`.
unfoldable pub find_conn : ℕ → Conns → Option (Protocol × Bytes)
find_conn it [] = none
find_conn it ((j, p, path) ∷ m) = if j == it then some (p, path) else find_conn it m

-- `m_conns[it] = …`.
unfoldable pub set_conn : ℕ → Protocol → Bytes → Conns → Conns
set_conn it p path [] = (it, p, path) ∷ []
set_conn it p path ((j, q, old) ∷ m) =
    if j == it then (j, p, path) ∷ m else (j, q, old) ∷ set_conn it p path m

-- `m_conns.erase(it)`.
unfoldable pub erase_conn : ℕ → Conns → Conns
erase_conn it [] = []
erase_conn it ((j, q, old) ∷ m) = if j == it then m else (j, q, old) ∷ erase_conn it m

-- A new connection: its entry and its context; one that is there is left alone.
unfoldable pub connection_up : ℕ → Option (Protocol × Bytes) → Conns → Conns × Option HttpParser
connection_up it (some found) conns = (conns, none)
connection_up it none conns = (set_conn it tcp (codes "/") conns, some new_parser)

-- `onConnection`, with the context that it sets.
unfoldable pub on_connection : Bool → ℕ → Conns → Conns × Option HttpParser
unfolding find_conn connection_up erase_conn
on_connection true it conns = connection_up it (find_conn it conns) conns
on_connection false it conns = (erase_conn it conns, none)

-- `EncodeNotFoundMessage`.
unfoldable pub encode_not_found : (ℕ → ℕ) → Bytes
encode_not_found rand =
    (encode_frame rand (record { opcode = close_frame; text = codes "WebSocket Not Found Servlet" })
      true).0

-- `NotFoundWSServlet::handle`.
unfoldable pub not_found_servlet : (ℕ → ℕ) → Message → List Call
unfolding encode_not_found
not_found_servlet rand msg = send (encode_not_found rand) ∷ []

-- `FunctionWSServlet::handle`.
unfoldable pub function_servlet : Option (Message → List Call) → Message → List Call
function_servlet none msg = []
function_servlet (some cb) msg = cb msg

module _ (sha1 base64 : Bytes → Bytes) where
  -- The response of `HttpHandShake`.
  unfoldable pub handshake_response : Bytes → HttpRequest → HttpResponse
  handshake_response key req =
      let res = record (new_response req.version true) {
        status = 101;
        websocket = true;
        reason = codes "WebSocket HandShake";
      } in
      set_response_header (codes "Sec-WebSocket-Accept") (accept_key sha1 base64 key) (
        set_response_header (codes "Connection") (codes "Upgrade")
          (set_response_header (codes "Upgrade") (codes "websocket") res))

  -- Behind the checks of the two headers, on the key.
  unfoldable pub accept : ℕ → Bytes → HttpRequest → Conns → Conns × List Call
  unfolding handshake_response
  accept it [] req conns = (conns, [])
  accept it (x ∷ xs) req conns = (
    set_conn it websocket req.path conns,
    send (dump_response (handshake_response (x ∷ xs) req)) ∷ [],
  )

  -- `HttpHandShake`.
  unfoldable pub http_handshake : ℕ → HttpRequest → Conns → Conns × List Call
  unfolding accept
  http_handshake it req conns =
      if not (same_key (request_header req (codes "Upgrade") []) (codes "websocket"))
      then (conns, [])
      else if not (same_key (request_header req (codes "Connection") []) (codes "Upgrade"))
      then (conns, [])
      else accept it (request_header req (codes "Sec-WebSocket-Key") []) req conns

-- What `onMessage` comes to: the connections, the parser, the buffer and the calls; or the parser
-- does not return; or the loop over messages is cut short, with the calls before that.
pub data Received : Type 0 where
  received : Conns → HttpParser → Buffer → List Call → Received
  not_parsed : Outcome → Received
  cut_short : List Call → Received
  not_followed : List Call → Received

abbrev pub all_calls : List (List Call) → List Call
all_calls [] = []
all_calls (cs ∷ css) = cs ++ all_calls css

module _ (sha1 base64 : Bytes → Bytes) (alloc : ℕ → Bool) (fnmatch : Bytes → Bytes → ℕ)
    (dispatch : Dispatch (Message → List Call)) where
  -- `onMessage` behind the parser's return.
  unfoldable pub after_parse : ℕ → Conns → Outcome → Received
  unfolding http_handshake
  after_parse it conns (returned ok p b) =
      let refused = if ok then [] else send bad_request ∷ shutdown ∷ [] in
      let (shaken, calls) = http_handshake sha1 base64 it p.request conns in
      if is_finished p
      then received shaken (reset p) b (refused ++ calls)
      else received conns p b refused
  after_parse it conns assert_failed = not_parsed assert_failed
  after_parse it conns looping = not_parsed looping

  -- `WSCommunication` behind its loop.
  unfoldable pub after_exchange : Conns → HttpParser → Exchanged (List Call) → Received
  after_exchange conns p (exchanged css b) = received conns p b (all_calls css)
  after_exchange conns p (interrupted css) = cut_short (all_calls css)
  after_exchange conns p (out_of_range css) = not_followed (all_calls css)
  after_exchange conns p (unfinished css) = not_followed (all_calls css)

  -- `WSDispatch::handle`.
  unfoldable pub handle : Bytes → Message → List Call
  handle path msg = get_matched_servlet fnmatch path dispatch msg

  -- `onMessage` on what `find` gave.
  unfoldable pub receive :
      ℕ → ℕ → HttpParser → Buffer → Conns → Option (Protocol × Bytes) → Received
  unfolding after_parse after_exchange handle
  receive fuel it p b conns none = received conns p b []
  receive fuel it p b conns (some (tcp, path)) = after_parse it conns (parse_http_request fuel p b)
  receive fuel it p b conns (some (websocket, path)) =
      after_exchange conns p (exchange alloc (handle path) fuel b)

  -- `onMessage`, with fuel for the loops.
  unfoldable pub on_message : ℕ → ℕ → HttpParser → Buffer → Conns → Received
  unfolding receive find_conn
  on_message fuel it p b conns = receive fuel it p b conns (find_conn it conns)
