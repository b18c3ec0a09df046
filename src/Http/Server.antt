-- ===== src/Http/Server.antt =====
-- shero/net/http/HttpServer.cc and HttpServlet.cc: what a connection's message callback does. A
-- servlet is the function its `handle` is from a request and a response to the response it leaves.
-- What the callback calls on the connection is the list of these calls in order.
pub mod Replies
pub mod Conversation
use shero.Common.{ℕ, Bool, true, false, not, ◌&&◌, ◌||◌, List, [], ◌∷◌, ◌++◌, ◌==◌, if◌then◌else◌}
use shero.Common.Bytes.{Bytes, codes, bytes_eq}
use shero.Buffer.{Buffer}
use shero.Dispatch.{Dispatch, get_matched_servlet}
use shero.Http.Status.{status_to_string}
use shero.Http.Message.{
  HttpRequest, HttpResponse, request_header, set_response_header, new_response, dump_response,
}
use shero.Http.Parser.{
  HttpParser, is_finished, reset, Outcome, returned, assert_failed, looping, parse_http_request,
}

abbrev pub Servlet : Type 0
Servlet = HttpRequest → HttpResponse → HttpResponse

abbrev pub not_found : ℕ
not_found = 404

-- `defaultHttpCallback`.
unfoldable pub default_http_callback : Servlet
default_http_callback req res = record res {
  status = not_found;
  reason = status_to_string not_found;
  close = true;
}

abbrev pub not_found_body : Bytes
not_found_body =
    codes
      "<html><head><title>404 Not Found</title></head><body><center><h1>404 Not Found</h1></center><hr><center>shero/1.0.0</center></body></html>"

-- `NotFoundServlet::handle`.
unfoldable pub not_found_servlet : Servlet
not_found_servlet req res =
    let found = record res { status = not_found; reason = status_to_string not_found } in
    let served = set_response_header (codes "Server") (codes "shero/1.0.0") found in
    let typed =
      set_response_header (codes "Content-Type") (codes "text/html;charset=utf-8") served in
    record typed { body = not_found_body }

-- A call on the connection.
pub data Call : Type 0 where
  send : Bytes → Call
  shutdown : Call

-- Whether the connection is to be closed behind the answer.
unfoldable pub wants_close : HttpRequest → Bool
wants_close req =
    let connection = request_header req (codes "Connection") [] in
    bytes_eq connection (codes "close")
    || (req.version == 0x10 && not (bytes_eq connection (codes "Keep-Alive")))

abbrev pub bad_request : Bytes
bad_request = codes "HTTP/1.1 400 Bad Request" ++ (13 ∷ 10 ∷ 13 ∷ 10 ∷ [])

-- What the callback leaves: the parser, the buffer and the calls; or the parser's loop did not end
-- with the fuel, or an assert failed.
pub data Served : Type 0 where
  served : HttpParser → Buffer → List Call → Served
  not_served : Outcome → Served

module _ (fnmatch : Bytes → Bytes → ℕ) (dispatch : Dispatch Servlet) where
  -- The response of `onRequest`: the matched servlet fills it.
  unfoldable pub respond : HttpRequest → HttpResponse
  unfolding wants_close
  respond req =
      get_matched_servlet fnmatch req.path dispatch req (new_response req.version (wants_close req))

  -- `onRequest`.
  unfoldable pub on_request : HttpRequest → List Call
  on_request req =
      let res = respond req in send (dump_response res) ∷ (if res.close then shutdown ∷ [] else [])

  -- `onMessage`, behind the parser's return. The two tests are made in turn.
  unfoldable pub after_parse : Outcome → Served
  unfolding on_request
  after_parse (returned ok p b) =
      let refused = if ok then [] else send bad_request ∷ shutdown ∷ [] in
      if is_finished p
      then served (reset p) b (refused ++ on_request p.request)
      else served p b refused
  after_parse assert_failed = not_served assert_failed
  after_parse looping = not_served looping

  -- `onMessage`, with fuel for the parser's loop.
  unfoldable pub on_message : ℕ → HttpParser → Buffer → Served
  unfolding after_parse
  on_message fuel p b = after_parse (parse_http_request fuel p b)
