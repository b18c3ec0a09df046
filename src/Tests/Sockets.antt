-- ===== src/Tests/Sockets.antt =====
-- WebSocket connections: concrete runs.
use shero.Common.{
  ℕ, suc, ◌+◌, ◌<◌, ◌≡◌, ◌≢◌, refl, ap, Bool, true, false, List, [], ◌∷◌, map, arith, ltb, length,
}
use shero.Common.Bytes.{Bytes, codes, bytes_eq, c_str, to_lower}
use shero.Buffer.{Buffer}
use shero.Buffer.Invariant.{length-to_string}
use shero.Buffer.Network.{Holds}
use shero.Dispatch.{Dispatch, new_dispatch}
use shero.Http.Status.{method_name, string_to_method}
use shero.Http.Headers.{same_key, fold_key}
use shero.Http.Parser.{
  new_parser, parser_line, set_target, parse_http_request, skip_spaces, cut_spaces, is_space,
}
use shero.Http.Parser.Whole.{IsRequestLine}
use shero.Http.Parser.Printed.{printed_fields, target_of}
use shero.Http.Client.Construct.{IsHeader}
use shero.Http.Client.Request.{
  construct_connection, construct_headers, construct_host, construct_request,
}
use shero.Http.Message.{
  HttpRequest, HttpResponse, default_request, new_request, set_request_header, response_header,
  dump_request,
}
use shero.WebSocket.Client.Printed.{stored}
use shero.Http.Server.{Call, send}
use shero.Net.Uri.{Uri, get_path}
use shero.WebSocket.Frame.{Message, encode_frames, text_frame, continue_frame}
use shero.WebSocket.Frame.Messages.{joined, texts, IsSendable, CanHold}
use shero.WebSocket.Handshake.{accept_key}
use shero.WebSocket.Exchange.{exchanged, exchange}
use shero.WebSocket.Exchange.Delivers.{Sent, received, wire, IsDeliverable, exchange-delivers}
use shero.WebSocket.Exchange.Ends.{HasEnded, exchange-HasEnded}
use shero.WebSocket.Server.{Conns, tcp, websocket, set_conn, after_parse, on_message}
use shero.WebSocket.Server.Isolation.{Keeps, on_message-Keeps}
use shero.WebSocket.Client.{WsClient, ws, http, accept_response, handshake_request}
use shero.WebSocket.Client.Agreement.{Shaken, switching_text, http_handshake-accept_response}
use shero.WebSocket.Client.Sending.{send_pieces, send_pieces-exchange}
use shero.Tests.{holding, holding-IsValid, holding-Holds, holding-to_string}

abbrev hello : Message
hello = record { opcode = text_frame; text = codes "he" }

abbrev world : Message
world = record { opcode = continue_frame; text = codes "llo" }

abbrev has_memory : ℕ → Bool
has_memory n = ltb n 65536

abbrev counting : ℕ → ℕ
counting i = 11 + i

hello-IsSendable : IsSendable hello
hello-IsSendable = record { kind = omega arith; bytes = (omega arith, (omega arith, tt)) }

world-IsSendable : IsSendable world
world-IsSendable = record {
  kind = omega arith;
  bytes = (omega arith, (omega arith, (omega arith, tt)));
}

can_hold : (n : ℕ) → n < 65536 → CanHold has_memory n
can_hold n h = record { serves = λ k le. ground arith; in_range = omega arith }

abbrev greeting : Sent
greeting = record { rand = counting; first = hello; others = world ∷ [] }

greeting-IsDeliverable : IsDeliverable has_memory greeting
greeting-IsDeliverable = record {
  few = omega arith;
  good = (hello-IsSendable, (world-IsSendable, tt));
  fits = can_hold 5 (omega arith);
}

abbrev two_greetings : Buffer
two_greetings = holding (wire (greeting ∷ greeting ∷ []))

exchange-delivers_example :
    (b' : Buffer) × (exchange has_memory (λ m. m) 2 two_greetings
      ≡ exchanged (map received (greeting ∷ greeting ∷ [])) b')
    × Holds b' []
exchange-delivers_example =
    exchange-delivers has_memory (λ m. m) 2 greeting (greeting ∷ []) (omega arith)
      (greeting-IsDeliverable, (greeting-IsDeliverable, tt))
      (holding-Holds (wire (greeting ∷ greeting ∷ [])))

abbrev noise : Bytes
noise = 33 ∷ 7 ∷ 255 ∷ []

exchange-HasEnded_example : HasEnded (exchange has_memory (λ m. m) 4 (holding noise))
exchange-HasEnded_example =
    exchange-HasEnded has_memory (λ m. m) 4 (holding noise) (holding-IsValid noise)
      (omega (arith, length-to_string (holding-IsValid noise), ap length (holding-to_string noise)))

abbrev identity : Bytes → Bytes
identity xs = xs

abbrev chat : Uri
chat = record {
  scheme = codes "ws";
  userinfo = [];
  host = codes "localhost";
  path = codes "/chat";
  query = [];
  fragment = [];
  port = 0;
}

abbrev waiting_client : WsClient
waiting_client = record {
  connect = false;
  key = codes "k1";
  state = http;
  has_conn = true;
  messages = [];
  sent = [];
  disconnects = 0;
  opened = 0;
}

abbrev two_conns : Conns
two_conns = (1, tcp, codes "/") ∷ (2, websocket, codes "/chat") ∷ []

abbrev asking : HttpRequest
asking = handshake_request chat (codes "k1")

asking_line : IsRequestLine (method_name asking.method) (target_of asking) (codes "HTTP/1.1")
unfolding string_to_method bytes_eq method_name c_str handshake_request construct_request
    construct_headers construct_host construct_connection set_request_header new_request get_path
    same_key fold_key to_lower
asking_line = record {
  known = refl;
  method_space = ground arith;
  method_return = ground arith;
  target_space = ground arith;
  target_return = ground arith;
}

key_plain : stored (codes "k1") ≡ codes "k1"
unfolding skip_spaces cut_spaces is_space
key_plain = refl

chat_host : IsHeader (codes "Host", codes "localhost")
chat_host = record {
  no_colon = ground arith;
  no_return_name = ground arith;
  no_return_value = ground arith;
}

chat_key : IsHeader (codes "Sec-WebSocket-Key", codes "k1")
chat_key = record {
  no_colon = ground arith;
  no_return_name = ground arith;
  no_return_value = ground arith;
}

http_handshake-accept_response_example :
    Shaken
      (set_conn 1 websocket (set_target (target_of asking) default_request).path two_conns)
      (send (switching_text identity identity (codes "k1")) ∷ [])
      (after_parse identity identity has_memory
        (λ p u. 1)
        (new_dispatch (λ m. []))
        1
        two_conns
        (parse_http_request
          (suc (suc (length (printed_fields asking))))
          (record { state = parser_line; request = default_request })
          (holding (dump_request asking))))
    × ((res : HttpResponse)
        → res.status ≡ 101
        → response_header res (codes "Sec-WebSocket-Accept") []
          ≡ accept_key identity identity (codes "k1")
        → accept_response identity identity res waiting_client ≡ record waiting_client {
          key = accept_key identity identity (codes "k1");
          state = ws;
          connect = true;
          opened = 1;
        })
http_handshake-accept_response_example =
    http_handshake-accept_response identity identity has_memory (λ p u. 1) (new_dispatch (λ m. []))
      chat b'k' (codes "1") 1 two_conns waiting_client {b = holding (dump_request asking)} refl
      key_plain chat_key chat_host asking_line (holding-IsValid (dump_request asking))
      (holding-to_string (dump_request asking))

abbrev open_client : WsClient
open_client = record waiting_client { connect = true; state = ws }

send_pieces-exchange_example :
    ((send_pieces counting (hello ∷ []) world open_client).sent
      ≡ encode_frames counting (hello ∷ world ∷ []) ∷ [])
    × (b' : Buffer) × (exchange has_memory
          (λ m. m)
          1
          (holding (encode_frames counting (hello ∷ world ∷ [])))
        ≡ exchanged
            ((record { opcode = joined 0 (hello ∷ world ∷ []); text = texts (hello ∷ world ∷ []) })
              ∷ [])
            b')
    × Holds b' []
send_pieces-exchange_example =
    send_pieces-exchange has_memory (λ m. m) counting (hello ∷ []) world open_client refl refl
      (omega arith) (hello-IsSendable, (world-IsSendable, tt)) (can_hold 5 (omega arith))
      (holding-Holds (encode_frames counting (hello ∷ world ∷ [])))

abbrev echo : Dispatch (Message → List Call)
echo = record { default = λ m. send m.text ∷ []; servlets = []; glob_servlets = [] }

-- A pattern matches only itself.
abbrev never : Bytes → Bytes → ℕ
never pattern uri = 1

one_is_not_two : ◌≢◌ {A = ℕ} 1 2
one_is_not_two e = omega arith

on_message-Keeps_example :
    Keeps 1 two_conns
      (on_message identity identity has_memory never echo 9 2 new_parser two_greetings two_conns)
on_message-Keeps_example =
    on_message-Keeps identity identity has_memory never echo 9 1 2 new_parser two_greetings
      two_conns one_is_not_two
