-- ===== src/Http/Server/Replies.antt =====
-- What the HTTP server answers to what it receives.
use shero.Common.{
  ℕ, suc, ◌<◌, ◌≡◌, refl, true, false, List, [], ◌∷◌, ◌++◌, inl, inr, if◌then◌else◌, All, length,
  none,
}
use shero.Common.Bytes.{Bytes}
use shero.Buffer.{Buffer, readable_bytes, to_string, find_crlf}
use shero.Buffer.Invariant.{IsValid}
use shero.Dispatch.{Dispatch}
use shero.Http.Status.{HttpMethod}
use shero.Http.Message.{HttpRequest, dump_response}
use shero.Http.Parser.{
  HttpParser, parser_line, set_target, new_parser, reset, Outcome, returned, assert_failed, looping,
  parse_http_request,
}
use shero.Http.Parser.Progress.{IsReading, Settles, parse_http_request-Settles}
use shero.Http.Parser.Whole.{
  Field, IsField, store_fields, head_text, request_line, IsRequestLine, Version, Finishes, finishes,
  parse_http_request-Finishes, parse_http_request_partial,
}
use shero.Http.Server.{
  Servlet, Call, send, shutdown, bad_request, Served, served, respond, on_request, after_parse,
  on_message,
}

module _ (fnmatch : Bytes → Bytes → ℕ) (dispatch : Dispatch Servlet) where
  -- The answer to a request: one send, and a shutdown behind it exactly where the response asks.
  abbrev pub answer : HttpRequest → List Call
  answer req =
      let res = respond fnmatch dispatch req in
      send (dump_response res) ∷ (if res.close then shutdown ∷ [] else [])

  -- What the callback made of the parser's outcome: either it returned true, and the calls are the
  -- answer to the request that it left and the parser is as new, or it returned false and the calls
  -- are the refusal.
  pub data Replied : Outcome → Served → Type 0 where
    answered :
        (p : HttpParser) (b : Buffer)
        → IsValid b
        → Replied (returned true p b) (served new_parser b (answer p.request))
    refused :
        (p : HttpParser) (b : Buffer)
        → IsValid b
        → Replied (returned false p b) (served p b (send bad_request ∷ shutdown ∷ []))

  after_parse-Replied :
      (m : HttpMethod) (o : Outcome) → Settles m o → Replied o (after_parse fnmatch dispatch o)
  unfolding after_parse on_request reset new_parser
  after_parse-Replied m (returned true p b) (v, k, f) = rw f (answered p b v)
  after_parse-Replied m (returned false p b) (v, k, f) = rw f (refused p b v)
  after_parse-Replied m assert_failed h = absurd h
  after_parse-Replied m looping h = absurd h

  -- From a parser that reads a line and a valid buffer, and with one round more than the readable
  -- bytes, the message callback finishes. Where the parser returns true, the reply is the matched
  -- servlet's answer to the request that the parser has read, and the parser is reset; where it
  -- returns false, the 400 refusal and a shutdown. The buffer stays valid.
  pub on_message-Replied :
      (fuel : ℕ) (p : HttpParser) {b : Buffer}
      → IsValid b
      → IsReading p.state
      → readable_bytes b < fuel
      → Replied (parse_http_request fuel p b) (on_message fnmatch dispatch fuel p b)
  unfolding on_message
  on_message-Replied fuel p {b} v st h =
      after_parse-Replied p.request.method (parse_http_request fuel p b)
        (parse_http_request-Settles fuel p v st h)

  -- The callback answered this request and left these bytes in the buffer.
  pub data Answers (req : HttpRequest) (rest : Bytes) : Served → Type 0 where
    answers :
        (b : Buffer)
        → IsValid b
        → to_string b ≡ rest
        → Answers req rest (served new_parser b (answer req))

  pub after_parse-Answers :
      (req : HttpRequest) (rest : Bytes) (o : Outcome)
      → Finishes req rest o
      → Answers req rest (after_parse fnmatch dispatch o)
  unfolding after_parse on_request reset new_parser
  after_parse-Answers req rest o (finishes b v e) = answers b v e

  -- A buffer that starts with a whole request head is answered by the servlet that its path
  -- selects, in one call of the callback; the bytes behind the head stay in the buffer, a second
  -- request among them, and no call is made for them.
  pub on_message-Answers :
      (method target text : Bytes) (n : ℕ) (fs : List Field) (rest : Bytes) (r : HttpRequest)
      {b : Buffer}
      → IsValid b
      → IsRequestLine method target text
      → Version text n
      → All IsField fs
      → to_string b ≡ request_line method target text ++ (13 ∷ 10 ∷ head_text fs rest)
      → Answers (store_fields fs (record (set_target target r) { version = n })) rest (
          on_message fnmatch dispatch
            (suc (suc (length fs)))
            (record { state = parser_line; request = r })
            b)
  unfolding on_message
  on_message-Answers method target text n fs rest r v w ver ws e =
      after_parse-Answers (store_fields fs (record (set_target target r) { version = n })) rest _
        (parse_http_request-Finishes method target text n fs rest r v w ver ws e)

  -- A message that ends inside the request line or the headers, so that no CRLF is in the buffer,
  -- is refused with a 400 and the connection is shut down, though the rest may be on its way.
  pub on_message_partial :
      (fuel : ℕ) (p : HttpParser) (b : Buffer)
      → IsReading p.state
      → find_crlf b ≡ none
      → on_message fnmatch dispatch (suc fuel) p b ≡ served p b (send bad_request ∷ shutdown ∷ [])
  unfolding on_message after_parse
  on_message_partial fuel p b (inl st) e =
      rw (parse_http_request_partial fuel p b (inl st) e, st) refl
  on_message_partial fuel p b (inr st) e =
      rw (parse_http_request_partial fuel p b (inr st) e, st) refl
