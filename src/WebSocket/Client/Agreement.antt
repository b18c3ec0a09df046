-- ===== src/WebSocket/Client/Agreement.antt =====
-- The two sides of the handshake agree, through the texts that they send. The response is read by a
-- parser that Ragel generates: the client is given what this makes of the text.
use shero.Common.{
  ℕ, suc, ◌+◌, ◌≡◌, refl, sym, ap, subst, ◌∙◌, true, not, List, [], ◌∷◌, ◌++◌, ◌==◌, if◌then◌else◌,
  length, append_assoc, Bool,
}
use shero.Common.Bytes.{
  Bytes, codes, bytes_eq, bytes_eq_refl, to_lower, c_str, decimal, decimal_digits,
}
use shero.Dispatch.{Dispatch}
use shero.WebSocket.Frame.{Message}
use shero.Buffer.{Buffer, to_string}
use shero.Buffer.Invariant.{IsValid}
use shero.Http.Status.{method_name}
use shero.Http.Headers.{fold_key, lex_lt, less, same_key, insert}
use shero.Http.Message.{
  HttpRequest, HttpResponse, default_request, request_header, response_header, set_response_header,
  new_response, dump_request, dump_response, dump_version, dump_connection, dump_headers, dump_body,
}
use shero.Http.Parser.{new_parser, parser_line, set_target, reset, Outcome, parse_http_request}
use shero.Http.Parser.Whole.{IsRequestLine, Version, one_one, Finishes, finishes}
use shero.Http.Parser.Printed.{target_of, printed_fields, parse_http_request-dump_request}
use shero.Http.Server.{Call, send as call_send}
use shero.Http.Client.Construct.{IsHeader}
use shero.Net.Uri.{Uri}
use shero.WebSocket.Handshake.{accept_key}
use shero.WebSocket.Server.{
  websocket, Conns, set_conn, handshake_response, accept, http_handshake, Received, received,
  after_parse,
}
use shero.WebSocket.Client.{WsClient, ws, handshake_request, accept_response}
use shero.WebSocket.Client.Printed.{
  stored, read_request, no_body, version_eleven, read_request-headers, known_upgrade,
  known_connection, known_key, looked_up, handshake_request-IsHeader, store_fields-path,
  store_fields-version,
}

same_upgrade : same_key (codes "websocket") (codes "websocket") ≡ true
unfolding same_key fold_key bytes_eq c_str to_lower
same_upgrade = refl

same_connection : same_key (codes "Upgrade") (codes "Upgrade") ≡ true
unfolding same_key fold_key bytes_eq c_str to_lower
same_connection = refl

-- The handshake ended with these entries and calls, a new parser and an empty valid input.
pub data Shaken (conns : Conns) (calls : List Call) : Received → Type 0 where
  shaken :
      (b : Buffer)
      → IsValid b
      → to_string b ≡ []
      → Shaken conns calls (received conns new_parser b calls)

module _ (sha1 base64 : Bytes → Bytes) where
  -- What the server sends for a key.
  abbrev pub switching_text : Bytes → Bytes
  switching_text key =
      codes "HTTP/1.1 101 WebSocket HandShake"
      ++ (13 ∷ 10 ∷ codes "Connection: Upgrade"
          ++ (13 ∷ 10 ∷ codes "Sec-WebSocket-Accept: "
              ++ (accept_key sha1 base64 key
                  ++ (13 ∷ 10 ∷ codes "Upgrade: websocket" ++ (13 ∷ 10 ∷ 13 ∷ 10 ∷ [])))))

  dump_response-handshake_response :
      (key : Bytes) (req : HttpRequest)
      → req.version ≡ 0x11
      → dump_response (handshake_response sha1 base64 key req) ≡ switching_text key
  unfolding dump_response handshake_response set_response_header new_response dump_version
      dump_connection dump_headers dump_body decimal decimal_digits insert less lex_lt fold_key
      same_key bytes_eq c_str to_lower
  dump_response-handshake_response key req e =
      let key' = accept_key sha1 base64 key in
      let last : Bytes = 13 ∷ 10 ∷ codes "Upgrade: websocket" ++ (13 ∷ 10 ∷ []) in
      let front : Bytes → Bytes = λ t.
        codes " 101 WebSocket HandShake"
        ++ (13 ∷ 10 ∷ codes "Connection: Upgrade"
            ++ (13 ∷ 10 ∷ codes "Sec-WebSocket-Accept: " ++ t)) in
      ap (λ v. dump_version v ++ front ((key' ++ last) ++ (13 ∷ 10 ∷ []))) e
      ∙ ap (λ t. codes "HTTP/1.1" ++ front t) (append_assoc key' last (13 ∷ 10 ∷ []))

  shakes :
      (it : ℕ) (req : HttpRequest) (conns : Conns) (x : ℕ) (xs : Bytes)
      → request_header req (codes "Upgrade") [] ≡ codes "websocket"
      → request_header req (codes "Connection") [] ≡ codes "Upgrade"
      → request_header req (codes "Sec-WebSocket-Key") [] ≡ x ∷ xs
      → req.version ≡ 0x11
      → http_handshake sha1 base64 it req conns
        ≡ (set_conn it websocket req.path conns, call_send (switching_text (x ∷ xs)) ∷ [])
  unfolding http_handshake accept
  shakes it req conns x xs hu hc hk hv =
      rw (hu, hc, hk, same_upgrade, same_connection)
        (ap (λ t. (set_conn it websocket req.path conns, call_send t ∷ []))
          (dump_response-handshake_response (x ∷ xs) req hv))

  after_parse-Shaken :
      (alloc : ℕ → Bool) (fnmatch : Bytes → Bytes → ℕ) (dispatch : Dispatch (Message → List Call))
      (it : ℕ) (req : HttpRequest) (conns after : Conns) (calls : List Call) (o : Outcome)
      → http_handshake sha1 base64 it req conns ≡ (after, calls)
      → Finishes req [] o
      → Shaken after calls (after_parse sha1 base64 alloc fnmatch dispatch it conns o)
  unfolding after_parse reset new_parser
  after_parse-Shaken alloc fnmatch dispatch it req conns after calls o h (finishes b v e) =
      subst (λ (r : Conns × List Call). Shaken after calls (received (r.0) new_parser b (r.1)))
        (sym h) (shaken b v e)

  -- A response with status 101 and the accept key of the client's key opens the client.
  accept_response_good :
      (res : HttpResponse) (c : WsClient)
      → res.status ≡ 101
      → response_header res (codes "Sec-WebSocket-Accept") [] ≡ accept_key sha1 base64 c.key
      → accept_response sha1 base64 res c ≡ record c {
        key = accept_key sha1 base64 c.key;
        state = ws;
        connect = true;
        opened = c.opened + 1;
      }
  unfolding accept_response
  accept_response_good res c hs ha =
      let hashed = accept_key sha1 base64 c.key in
      let refused : WsClient = record c { key = hashed } in
      let opened : WsClient = record c {
        key = hashed;
        state = ws;
        connect = true;
        opened = c.opened + 1;
      } in
      ap
        (λ n.
          if not (n == 101)
          then c
          else if not (bytes_eq (response_header res (codes "Sec-WebSocket-Accept") []) hashed)
          then refused
          else opened)
        hs
      ∙ ap (λ (k : Bytes). if not (bytes_eq k hashed) then refused else opened) ha
      ∙ ap (λ b. if not b then refused else opened) (bytes_eq_refl hashed)

  -- The text of a client's handshake, for a URI whose request line and host can be parsed and a key
  -- without CR that is not empty and has no white space around it, makes a server with a new parser
  -- switch the connection to WebSocket under the parsed path and send one text: status 101 and three
  -- headers, among them the accept key. A client with the key that is given a response of this status and
  -- accept key takes it for the end of the handshake. SHA-1 and Base64 are any functions.
  pub http_handshake-accept_response :
      (alloc : ℕ → Bool) (fnmatch : Bytes → Bytes → ℕ) (dispatch : Dispatch (Message → List Call))
      (uri : Uri) (x : ℕ) (xs : Bytes) (it : ℕ) (conns : Conns) (c : WsClient) {b : Buffer}
      → c.key ≡ x ∷ xs
      → stored (x ∷ xs) ≡ x ∷ xs
      → IsHeader (codes "Sec-WebSocket-Key", x ∷ xs)
      → IsHeader (codes "Host", uri.host)
      → IsRequestLine
          (method_name (handshake_request uri (x ∷ xs)).method)
          (target_of (handshake_request uri (x ∷ xs)))
          (codes "HTTP/1.1")
      → IsValid b
      → to_string b ≡ dump_request (handshake_request uri (x ∷ xs))
      → let req = handshake_request uri (x ∷ xs) in
        let path = (set_target (target_of req) default_request).path in
        Shaken (set_conn it websocket path conns) (call_send (switching_text (x ∷ xs)) ∷ []) (
          after_parse sha1 base64 alloc fnmatch dispatch it conns (
            parse_http_request
              (suc (suc (length (printed_fields req))))
              (record { state = parser_line; request = default_request })
              b))
        × ((res : HttpResponse)
            → res.status ≡ 101
            → response_header res (codes "Sec-WebSocket-Accept") []
              ≡ accept_key sha1 base64 (x ∷ xs)
            → accept_response sha1 base64 res c ≡ record c {
              key = accept_key sha1 base64 (x ∷ xs);
              state = ws;
              connect = true;
              opened = c.opened + 1;
            })
  http_handshake-accept_response alloc fnmatch dispatch uri x xs it conns c {b} hk plain key host
        line v e =
      let req = handshake_request uri (x ∷ xs) in
      let read = read_request req in
      let known = read_request-headers uri (x ∷ xs) in
      let start : HttpRequest = record (set_target (target_of req) default_request) {
        version = req.version;
      } in
      let outcome =
        parse_http_request (suc (suc (length (printed_fields req))))
          (record { state = parser_line; request = default_request }) b in
      let path : read.path ≡ start.path = store_fields-path (printed_fields req) start in
      let shaken_hands =
        shakes it read conns x xs
          (looked_up read (codes "Upgrade") known (known_upgrade uri.host (x ∷ xs)))
          (looked_up read (codes "Connection") known (known_connection uri.host (x ∷ xs)))
          (looked_up read (codes "Sec-WebSocket-Key") known (known_key uri.host (x ∷ xs)) ∙ plain)
          (store_fields-version (printed_fields req) start ∙ version_eleven uri (x ∷ xs)) in
      (
        after_parse-Shaken alloc fnmatch dispatch it read conns _ _ _
            (shaken_hands
              ∙ ap (λ p. (set_conn it websocket p conns, call_send (switching_text (x ∷ xs)) ∷ []))
                  path)
            (subst (λ body. Finishes read body outcome) (no_body uri (x ∷ xs))
              (parse_http_request-dump_request req default_request (codes "HTTP/1.1") v line
                (subst (Version (codes "HTTP/1.1")) (sym (version_eleven uri (x ∷ xs))) one_one)
                (handshake_request-IsHeader uri (x ∷ xs) host key) e)),
        λ res hs ha.
            accept_response_good res c hs (ha ∙ ap (accept_key sha1 base64) (sym hk))
            ∙ ap
                (λ (k : Bytes).
                  let r : WsClient = record c {
                    key = accept_key sha1 base64 k;
                    state = ws;
                    connect = true;
                    opened = c.opened + 1;
                  } in
                  r)
                hk,
      )
