-- ===== src/Http/Client/Served.antt =====
-- A request from `DoRequest` of shero/net/http/client/HttpClient.cc through the text on the wire to the
-- answer of shero/net/http/HttpServer.cc, and back to the caller.
use shero.Common.{
  ℕ, suc, ◌≡◌, ◌≢◌, refl, ◌∙◌, sym, ap, subst, true, false, Option, some, List, [], ◌∷◌, ◌++◌,
  length, All,
}
use shero.Common.Bytes.{Bytes, codes, marked}
use shero.Buffer.{Buffer, to_string}
use shero.Buffer.Invariant.{IsValid}
use shero.Dispatch.{Dispatch}
use shero.Net.Address.{Address}
use shero.Net.Uri.{Uri, get_path, create_address}
use shero.Http.Status.{HttpMethod, method_name}
use shero.Http.Message.{HttpRequest, default_request, dump_request}
use shero.Http.Parser.{parser_line, set_target}
use shero.Http.Parser.Whole.{IsRequestLine, Version, one_one, store_fields}
use shero.Http.Parser.Printed.{target_of, printed_fields, parse_http_request-dump_request}
use shero.Http.Server.{Servlet, on_message}
use shero.Http.Server.Replies.{Answers, after_parse-Answers}
use shero.Http.Client.{new_client, send_request, on_messages, on_connection}
use shero.Http.Client.Life.{request_run, verdict_on_ended}
use shero.Http.Client.Flow.{waits, do_request, answer_of}
use shero.Http.Client.Request.{construct_request}
use shero.Http.Client.Response.{ResponseParser, looping, parse_response}
use shero.Http.Client.Construct.{
  Line, IsHeader, line_of, construct_request-line, construct_request-IsHeader,
}

-- The target that a URI asks for.
abbrev pub uri_target : Uri → Bytes
uri_target uri = get_path uri ++ (marked (codes "?") uri.query ++ marked (codes "#") uri.fragment)

abbrev target_in : Line → Bytes
target_in l = l.path ++ (marked (codes "?") l.query ++ marked (codes "#") l.fragment)

module _ (method : HttpMethod) (uri : Uri) (headers : List (Bytes × Bytes)) (body : Bytes)
    (line : IsRequestLine (method_name method) (uri_target uri) (codes "HTTP/1.1"))
    (host : IsHeader (codes "Host", uri.host)) (fields : All IsHeader headers) where
  abbrev pub asked : HttpRequest
  asked = construct_request method uri headers body

  asked-line :
      (l : Line)
      → line_of asked ≡ l
      → IsRequestLine (method_name l.method) (target_in l) (codes "HTTP/1.1")
      → IsRequestLine (method_name asked.method) (target_of asked) (codes "HTTP/1.1")
  asked-line l e h =
      subst (λ k. IsRequestLine (method_name k.method) (target_in k) (codes "HTTP/1.1")) (sym e) h

  -- What a server that waits for a request does on the text of the request.
  served_at :
      (l : Line) (fnmatch : Bytes → Bytes → ℕ) (dispatch : Dispatch Servlet) {b : Buffer}
      → line_of asked ≡ l
      → IsValid b
      → to_string b ≡ dump_request asked
      → Answers fnmatch dispatch
          (store_fields
            (printed_fields asked)
            (record (set_target (target_in l) default_request) { version = l.version }))
          l.body
          (on_message fnmatch dispatch
            (suc (suc (length (printed_fields asked))))
            (record { state = parser_line; request = default_request })
            b)
  unfolding on_message
  served_at l fnmatch dispatch {b} same v e =
      let e11 = construct_request-line method uri headers body in
      subst
        (λ k.
          Answers fnmatch dispatch
            (store_fields (printed_fields asked)
              (record (set_target (target_in k) default_request) { version = k.version }))
            k.body
            (on_message fnmatch dispatch (suc (suc (length (printed_fields asked))))
              (record { state = parser_line; request = default_request }) b))
        same
        (after_parse-Answers fnmatch dispatch _ asked.body _ (
          parse_http_request-dump_request asked default_request (codes "HTTP/1.1") v
            (asked-line _ e11 line)
            (subst (Version (codes "HTTP/1.1")) (sym (ap (λ (k : Line). k.version) e11)) one_one)
            (construct_request-IsHeader method uri headers body host fields) e))

  -- A request for a URI whose host has an address, with headers and a host without CR and no colon in a
  -- name, and a known method and a target without space and CR. The client connects to the address of the
  -- URI and sends one text when the connection is up. A server with a new parser whose buffer holds that
  -- text answers the request of version 1.1 with the target of the URI and the printed headers, and the
  -- body stays in the buffer. When messages came and the connection is down, and the parser of the response
  -- returns on them, `DoRequest` returns what it returned.
  pub do_request-served :
      (create : Bytes → Option Uri) (getaddrinfo : Bytes → Option Bytes → Option (List Address))
      (addr : Address) {P : Type 0} (rp : ResponseParser P) (fuel : ℕ) (m : Bytes) (ms : List Bytes)
      (fnmatch : Bytes → Bytes → ℕ) (dispatch : Dispatch Servlet) {b : Buffer}
      → create_address getaddrinfo uri ≡ some addr
      → IsValid b
      → to_string b ≡ dump_request asked
      → parse_response rp fuel m ms ≢ looping
      → let up = on_connection rp fuel true (new_client asked) in
        (do_request create getaddrinfo method (some uri) headers body
          ≡ waits addr (new_client asked))
        × (up.sent ≡ dump_request asked ∷ [])
        × Answers fnmatch dispatch
            (store_fields
              (printed_fields asked)
              (record (set_target (uri_target uri) default_request) { version = 0x11 }))
            body
            (on_message fnmatch dispatch
              (suc (suc (length (printed_fields asked))))
              (record { state = parser_line; request = default_request })
              b)
        × (answer_of (on_connection rp fuel false (on_messages rp fuel (m ∷ ms) up))
            ≡ some (some (parse_response rp fuel m ms)))
  unfolding do_request answer_of on_connection send_request new_client
  do_request-served create getaddrinfo addr rp fuel m ms fnmatch dispatch found v e ended =
      let run = request_run rp fuel asked (m ∷ ms) in
      (
        rw found refl,
        refl,
        served_at _ fnmatch dispatch (construct_request-line method uri headers body) v e,
        rw (run.2, (verdict_on_ended (parse_response rp fuel m ms) ended).1)
            (ap some (run.1 ∙ (verdict_on_ended (parse_response rp fuel m ms) ended).0)),
      )
