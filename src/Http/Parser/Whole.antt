-- ===== src/Http/Parser/Whole.antt =====
-- A whole request head through `parserHttpRequest`: the request line, the header lines and the
-- empty line that ends them.
use shero.Common.{
  ℕ, suc, ◌≡◌, ◌≢◌, refl, ◌∙◌, Bool, true, false, Option, none, some, List, [], ◌∷◌, ◌++◌,
  if◌then◌else◌, arith, length, All, All-append, ◌⊎◌, inl, inr,
}
use shero.Common.Bytes.{Bytes, split_at, split_at-append, bytes_eq, codes}
use shero.Buffer.{Buffer, to_string, find_crlf}
use shero.Buffer.Invariant.{IsValid}
use shero.Http.Status.{string_to_method}
use shero.Http.Message.{HttpRequest, set_request_header}
use shero.Http.Parser.{
  parser_line, parser_headers, parser_finished, HttpParser, set_target, parse_version, is_invalid,
  parse_target, parse_method, parse_request_line, parse_header, header_step, Outcome, returned,
  leave, again, after_line, line_round, headers_round, parser_round, round_in, parse_http_request,
  skip_spaces, cut_spaces,
}
use shero.Http.Parser.Lines.{Starts, starts}
use shero.Http.Parser.Progress.{parser_round_at}

-- A header line: a name without ':' and CR, and whatever without CR behind the ':'.
pub record Field : Type 0 where
  pub name : Bytes
  pub value : Bytes

pub record IsField (f : Field) : Type 0 where
  pub no_colon : All (λ c. c ≢ 58) f.name
  pub no_return_name : All (λ c. c ≢ 13) f.name
  pub no_return_value : All (λ c. c ≢ 13) f.value

abbrev pub field_line : Field → Bytes
field_line f = f.name ++ (58 ∷ f.value)

-- The header lines and the end of the head.
abbrev pub head_text : List Field → Bytes → Bytes
head_text [] rest = 13 ∷ 10 ∷ rest
head_text (f ∷ fs) rest = field_line f ++ (13 ∷ 10 ∷ head_text fs rest)

-- The fields stored in turn, each value without the white space around it.
abbrev pub store_fields : List Field → HttpRequest → HttpRequest
store_fields [] r = r
store_fields (f ∷ fs) r =
    store_fields fs (set_request_header f.name (cut_spaces (skip_spaces f.value)) r)

-- The parser returned `true`, finished, with this request and these bytes left.
pub data Finishes (r : HttpRequest) (rest : Bytes) : Outcome → Type 0 where
  finishes :
      (b : Buffer)
      → IsValid b
      → to_string b ≡ rest
      → Finishes r rest (returned true (record { state = parser_finished; request = r }) b)

no_return : (f : Field) → IsField f → All (λ c. c ≢ 13) (field_line f)
no_return f w =
    All-append (λ c. c ≢ 13) f.name (58 ∷ f.value) w.no_return_name
      ((λ e. omega arith), w.no_return_value)

after_past :
    (o : Option Buffer) (b : Buffer) (ok : Bool) (p : HttpParser)
    → o ≡ some b
    → after_line o ok p ≡ (if ok then leave true p b else again p b)
unfolding after_line
after_past o b ok p e = rw e refl

-- One round on a header line.
field_round :
    {b : Buffer} (f : Field) (rest : Bytes) (r : HttpRequest)
    → IsField f
    → (s : Starts b (field_line f) rest)
    → parser_round (record { state = parser_headers; request = r }) b
      ≡ again
          (record {
            state = parser_headers;
            request = set_request_header f.name (cut_spaces (skip_spaces f.value)) r;
          })
          s.next
unfolding round_in headers_round parse_header header_step
field_round {b} f rest r w s =
    parser_round_at parser_headers (record { state = parser_headers; request = r }) b refl
    ∙ rw (s.crlf, s.text, split_at-append 58 f.name f.value w.no_colon)
        (after_past _ s.next false _ s.past)

-- One round on the line that ends the head.
end_round :
    {b : Buffer} (rest : Bytes) (r : HttpRequest)
    → (s : Starts b [] rest)
    → parser_round (record { state = parser_headers; request = r }) b
      ≡ leave true (record { state = parser_finished; request = r }) s.next
unfolding round_in headers_round parse_header header_step split_at
end_round {b} rest r s =
    parser_round_at parser_headers (record { state = parser_headers; request = r }) b refl
    ∙ rw (s.crlf, s.text) (after_past _ s.next true _ s.past)

-- The header lines, from `ParserHeaders` on.
pub headers-Finishes :
    (fs : List Field) (rest : Bytes) (r : HttpRequest) {b : Buffer}
    → IsValid b
    → All IsField fs
    → to_string b ≡ head_text fs rest
    → Finishes
        (store_fields fs r)
        rest
        (parse_http_request (suc (length fs)) (record { state = parser_headers; request = r }) b)
unfolding parse_http_request
headers-Finishes [] rest r v w e =
    let s = starts [] rest v tt e in
    rw (parse_http_request, end_round rest r s) (finishes s.next s.valid s.queue)
headers-Finishes (f ∷ fs) rest r v w e =
    let s = starts (field_line f) (head_text fs rest) v (no_return f w.0) e in
    rw (parse_http_request, field_round f (head_text fs rest) r w.0 s)
      (headers-Finishes fs rest (set_request_header f.name (cut_spaces (skip_spaces f.value)) r)
        s.valid w.1 s.queue)

-- "<method> <target> <version>".
abbrev pub request_line : Bytes → Bytes → Bytes → Bytes
request_line method target version = method ++ (32 ∷ (target ++ (32 ∷ version)))

-- What the parts of a request line may hold: no CR anywhere, no space in the method and the target.
pub record IsRequestLine (method target version : Bytes) : Type 0 where
  pub known : is_invalid (string_to_method method) ≡ false
  pub method_space : All (λ c. c ≢ 32) method
  pub method_return : All (λ c. c ≢ 13) method
  pub target_space : All (λ c. c ≢ 32) target
  pub target_return : All (λ c. c ≢ 13) target

-- The two versions that are accepted, and the number stored for each.
pub data Version : Bytes → ℕ → Type 0 where
  one_one : Version (codes "HTTP/1.1") 0x11
  one_zero : Version (codes "HTTP/1.0") 0x10

Version-no_return : (t : Bytes) (n : ℕ) → Version t n → All (λ c. c ≢ 13) t
Version-no_return t n one_one = ground arith
Version-no_return t n one_zero = ground arith

parse_version-Version :
    (t : Bytes) (n : ℕ) (r : HttpRequest)
    → Version t n
    → parse_version t r ≡ (true, record r { version = n })
unfolding parse_version bytes_eq
parse_version-Version t n r one_one = refl
parse_version-Version t n r one_zero = refl

parse_request_line-lem :
    (method target text : Bytes) (n : ℕ) (r : HttpRequest)
    → IsRequestLine method target text
    → Version text n
    → parse_request_line (request_line method target text) r
      ≡ (true, record (set_target target r) { version = n })
unfolding parse_request_line parse_method parse_target
parse_request_line-lem method target text n r w v =
    rw
      (
        split_at-append 32 method (target ++ (32 ∷ text)) w.method_space,
        w.known,
        split_at-append 32 target text w.target_space,
      )
      (parse_version-Version text n (set_target target r) v)

request_line_no_return :
    (method target text : Bytes) (n : ℕ)
    → IsRequestLine method target text
    → Version text n
    → All (λ c. c ≢ 13) (request_line method target text)
request_line_no_return method target text n w v =
    All-append (λ c. c ≢ 13) method (32 ∷ (target ++ (32 ∷ text))) w.method_return
      (
        (λ e. omega arith),
        All-append (λ c. c ≢ 13) target (32 ∷ text) w.target_return
            ((λ e. omega arith), Version-no_return text n v),
      )

line_round_ok :
    {b : Buffer} (line rest : Bytes) (r r' : HttpRequest)
    → (s : Starts b line rest) → parse_request_line line r ≡ (true, r')
    → parser_round (record { state = parser_line; request = r }) b
      ≡ again (record { state = parser_headers; request = r' }) s.next
unfolding round_in line_round
line_round_ok {b} line rest r r' s e =
    parser_round_at parser_line (record { state = parser_line; request = r }) b refl
    ∙ rw (s.crlf, s.text, e) (after_past _ s.next false _ s.past)

-- A buffer that starts with a request line whose method is known and whose version is HTTP/1.1 or
-- HTTP/1.0, with any header lines and the empty line behind it, is parsed in as many rounds as it
-- has lines: the loop returns `true` with a finished parser whose request has the target's path and
-- query, the version and each header with the white space around its value cut, and the buffer is
-- valid and keeps exactly the bytes behind the head.
pub parse_http_request-Finishes :
    (method target text : Bytes) (n : ℕ) (fs : List Field) (rest : Bytes) (r : HttpRequest)
    {b : Buffer}
    → IsValid b
    → IsRequestLine method target text
    → Version text n
    → All IsField fs
    → to_string b ≡ request_line method target text ++ (13 ∷ 10 ∷ head_text fs rest)
    → Finishes
        (store_fields fs (record (set_target target r) { version = n }))
        rest
        (parse_http_request (suc (suc (length fs))) (record { state = parser_line; request = r }) b)
unfolding parse_http_request
parse_http_request-Finishes method target text n fs rest r v w ver ws e =
    let line = request_line method target text in
    let s =
      starts line (head_text fs rest) v (request_line_no_return method target text n w ver) e in
    rw
      (
        parse_http_request,
        line_round_ok line (head_text fs rest) r (record (set_target target r) { version = n }) s
            (parse_request_line-lem method target text n r w ver),
      )
      (headers-Finishes fs rest (record (set_target target r) { version = n }) s.valid ws s.queue)

-- While the buffer holds no whole line, the parser returns `false` and changes nothing.
pub parse_http_request_partial :
    (fuel : ℕ) (p : HttpParser) (b : Buffer)
    → (p.state ≡ parser_line) ⊎ (p.state ≡ parser_headers)
    → find_crlf b ≡ none
    → parse_http_request (suc fuel) p b ≡ returned false p b
unfolding parse_http_request round_in line_round headers_round
parse_http_request_partial fuel p b (inl st) e =
    rw (parse_http_request, parser_round_at parser_line p b st, e) refl
parse_http_request_partial fuel p b (inr st) e =
    rw (parse_http_request, parser_round_at parser_headers p b st, e) refl
