-- ===== src/Tests/Peers.antt =====
-- The HTTP client and the TCP server: concrete runs.
use shero.Common.{
  ℕ, suc, Option, none, some, ◌≡◌, ◌≢◌, refl, true, false, List, [], ◌∷◌, arith, length,
}
use shero.Common.Bytes.{Bytes, codes, bytes_eq, c_str}
use shero.Buffer.Fixed.{byteswap}
use shero.Dispatch.{Dispatch, new_dispatch}
use shero.Net.Address.{Address, lookup_address, set_port}
use shero.Net.Uri.{Uri, get_path, get_port, create_address}
use shero.Http.Status.{HttpMethod, method_name, string_to_method}
use shero.Http.Parser.{parser_line, set_target}
use shero.Http.Parser.Whole.{IsRequestLine, store_fields}
use shero.Http.Parser.Printed.{printed_fields}
use shero.Http.Server.{Servlet, on_message, not_found_servlet}
use shero.Http.Server.Replies.{Answers}
use shero.Http.Client.Request.{construct_request}
use shero.Http.Client.Flow.{do_request, waits, answer_of}
use shero.Http.Client.Construct.{IsHeader}
use shero.Http.Client.Served.{uri_target, do_request-served}
use shero.Tests.{holding, holding-IsValid, holding-to_string}
use shero.Http.Message.{HttpRequest, default_request, new_response, dump_request}
use shero.Http.Client.{new_client, on_connection, on_messages}
use shero.Http.Client.Response.{
  ResponseParser, chunk_body, looping, parse_response, execute_text, parse_body, length_body,
  content_length, set_body,
}
use shero.Http.Client.Chunks.{Taken, chunk_body-Taken}
use shero.Net.ThreadPool.{ThreadPool, get_next_loop, pick_from}
use shero.Tcp.Server.{find, new_server, new_connection, connection_on, add_connection}
use shero.Tcp.Server.Table.{
  System, initial, accepted, set_pool, Reach, here, more, IsAccounted, Reach-IsAccounted,
}

-- Five bytes, of which the network brings two, one and four.
abbrev pieces : List Bytes
pieces = codes "c" ∷ codes "de12" ∷ []

chunk_body-Taken_example :
    Taken 5 (codes "body") (codes "abcde12") (chunk_body 5 (codes "body") (codes "ab") pieces)
chunk_body-Taken_example = chunk_body-Taken 5 (codes "body") (codes "ab") pieces (omega arith)

-- A parser that takes any text for a whole head with no body.
abbrev trusting : ResponseParser ℕ
trusting = record {
  fresh = 0;
  init = λ p. p;
  execute = λ text p. (p, length text);
  has_error = λ p. false;
  is_finished = λ p. true;
  chunked = λ p. false;
  content_len = λ p. 0;
  chunks_done = λ p. true;
  response = λ p. new_response 0x11 true;
}

abbrev two_segments : List Bytes
two_segments = codes "HTTP/1.1 200 OK" ∷ codes "rest" ∷ []

-- A pool whose base loop, 0, takes every connection.
abbrev started_pool : ThreadPool ℕ
started_pool = record { started = true; next = 0; num_threads = 0; loops = []; base_loop = 0 }

abbrev before_accept : System ℕ
before_accept = record (initial 0 (codes "srv") (codes "0.0.0.0:80")) {
  server = record (new_server 0 (codes "srv") (codes "0.0.0.0:80")) { pool = started_pool };
}

abbrev after_accept : System ℕ
after_accept = record {
  server = (add_connection 7 0 started_pool before_accept.server).0;
  log = (add_connection 7 0 started_pool before_accept.server).1;
  repeated = [];
}

accepted_one : Reach (initial 0 (codes "srv") (codes "0.0.0.0:80")) after_accept
unfolding initial new_server find new_connection connection_on get_next_loop pick_from
    add_connection
accepted_one =
    more before_accept after_accept
      (more (initial 0 (codes "srv") (codes "0.0.0.0:80")) before_accept here
        (set_pool started_pool))
      (accepted 7 (add_connection 7 0 started_pool before_accept.server).0
        (add_connection 7 0 started_pool before_accept.server).1 refl refl)

Reach-IsAccounted_example : IsAccounted after_accept
Reach-IsAccounted_example =
    Reach-IsAccounted 0 (codes "srv") (codes "0.0.0.0:80") after_accept accepted_one

-- A request for "http://a/x?y", a host with one address, and a server with one servlet.
abbrev page : Uri
page = record {
  scheme = codes "http";
  userinfo = [];
  host = codes "a";
  path = codes "/x";
  query = codes "y";
  fragment = [];
  port = 0;
}

abbrev accepts_any : List (Bytes × Bytes)
accepts_any = (codes "Accept", codes "*") ∷ []

page_line : IsRequestLine (method_name HttpMethod.get) (uri_target page) (codes "HTTP/1.1")
unfolding string_to_method bytes_eq method_name c_str get_path
page_line = record {
  known = refl;
  method_space = ground arith;
  method_return = ground arith;
  target_space = ground arith;
  target_return = ground arith;
}

page_host : IsHeader (codes "Host", codes "a")
page_host = record {
  no_colon = ground arith;
  no_return_name = ground arith;
  no_return_value = ground arith;
}

accepts_any-IsHeader : IsHeader (codes "Accept", codes "*")
accepts_any-IsHeader = record {
  no_colon = ground arith;
  no_return_name = ground arith;
  no_return_value = ground arith;
}

abbrev one_address : Bytes → Option Bytes → Option (List Address)
one_address node service = some (record { sin_addr = 1; sin_port = 0 } ∷ [])

abbrev page_address : Address
page_address = record { sin_addr = 1; sin_port = 20480 }

page_address_lem : create_address one_address page ≡ some page_address
unfolding create_address lookup_address get_port set_port byteswap bytes_eq
page_address_lem = refl

abbrev page_request : HttpRequest
page_request = construct_request HttpMethod.get page accepts_any (codes "hi")

abbrev no_match : Bytes → Bytes → ℕ
no_match pattern uri = 1

abbrev plain_dispatch : Dispatch Servlet
plain_dispatch = new_dispatch not_found_servlet

-- The text holds no length, so the parser gives an empty body.
trusting_ends : parse_response trusting 3 (codes "HTTP/1.1 200 OK") (codes "rest" ∷ []) ≢ looping
unfolding parse_response execute_text parse_body length_body content_length set_body
trusting_ends e = ground (arith, e)

do_request-served_example :
    let up = on_connection trusting 3 true (new_client page_request) in
    (do_request (λ url. none) one_address HttpMethod.get (some page) accepts_any (codes "hi")
      ≡ waits page_address (new_client page_request))
    × (up.sent ≡ dump_request page_request ∷ [])
    × Answers no_match plain_dispatch
        (store_fields
          (printed_fields page_request)
          (record (set_target (uri_target page) default_request) { version = 0x11 }))
        (codes "hi")
        (on_message no_match plain_dispatch
          (suc (suc (length (printed_fields page_request))))
          (record { state = parser_line; request = default_request })
          (holding (dump_request page_request)))
    × (answer_of (on_connection trusting 3 false (on_messages trusting 3 two_segments up))
        ≡ some (some (parse_response trusting 3 (codes "HTTP/1.1 200 OK") (codes "rest" ∷ []))))
do_request-served_example =
    do_request-served HttpMethod.get page accepts_any (codes "hi") page_line page_host
      (accepts_any-IsHeader, tt) (λ url. none) one_address page_address trusting 3
      (codes "HTTP/1.1 200 OK") (codes "rest" ∷ []) no_match plain_dispatch page_address_lem
      (holding-IsValid (dump_request page_request)) (holding-to_string (dump_request page_request))
      trusting_ends
