-- ===== src/Http/Parser/Printed.antt =====
-- What `HttpRequest::dump` of shero/net/http/HttpCommon.cc prints is what `parserHttpRequest` reads.
use shero.Common.{
  ℕ, zero, suc, ◌+◌, ◌/◌, ◌%◌, ◌≡◌, ◌≢◌, refl, sym, ap, ◌∙◌, Bool, true, false, not, ◌&&◌, List, [],
  ◌∷◌, ◌++◌, length, if◌then◌else◌, ltb, All, All-append, append_assoc, arith, Bool-cases, inl, inr,
}
use shero.Common.Bytes.{Bytes, marked, codes, decimal, decimal_digits}
use shero.Buffer.{Buffer, to_string}
use shero.Buffer.Invariant.{IsValid}
use shero.Http.Status.{method_name}
use shero.Http.Headers.{Headers, same_key}
use shero.Http.Message.{
  HttpRequest, crlf, dump_version, dump_connection, dump_headers, dump_body, dump_request,
}
use shero.Http.Parser.{parser_line, set_target, parse_http_request}
use shero.Http.Parser.Whole.{
  Field, IsField, head_text, store_fields, request_line, IsRequestLine, Version, one_one, one_zero,
  Finishes, parse_http_request-Finishes,
}

-- The target, as it is printed.
abbrev pub target_of : HttpRequest → Bytes
target_of r = r.path ++ (marked (codes "?") r.query ++ marked (codes "#") r.fragment)

-- The lines of the head, as they are printed: the connection, the other headers, the length.
abbrev pub connection_fields : Bool → Bool → List Field
connection_fields true close = []
connection_fields false true = record { name = codes "Connection"; value = codes " close" } ∷ []
connection_fields false false =
    record { name = codes "Connection"; value = codes " keep-alive" } ∷ []

abbrev pub spaced : Bytes × Bytes → Field
spaced e = record { name = e.0; value = 32 ∷ e.1 }

abbrev pub header_fields : Bool → Headers → List Field
header_fields websocket [] = []
header_fields websocket ((k, v) ∷ m) =
    let rest = header_fields websocket m in
    if not websocket && same_key k (codes "connection") then rest else spaced (k, v) ∷ rest

abbrev pub length_fields : Bytes → List Field
length_fields [] = []
length_fields (x ∷ xs) =
    record { name = codes "content-length"; value = 32 ∷ decimal (length (x ∷ xs)) } ∷ []

abbrev pub printed_fields : HttpRequest → List Field
printed_fields r =
    connection_fields r.websocket r.close
    ++ (header_fields r.websocket r.headers ++ length_fields r.body)

dump_body-head_text : (body : Bytes) → dump_body body ≡ head_text (length_fields body) body
unfolding dump_body
dump_body-head_text [] = refl
dump_body-head_text (x ∷ xs) = refl

dump_headers-head_text :
    (websocket : Bool) (m : Headers) (gs : List Field) (tail rest : Bytes)
    → tail ≡ head_text gs rest
    → dump_headers websocket m ++ tail ≡ head_text (header_fields websocket m ++ gs) rest
unfolding dump_headers
dump_headers-head_text websocket [] gs tail rest e = e
dump_headers-head_text websocket ((k, v) ∷ m) gs tail rest e =
    elim (Bool-cases (not websocket && same_key k (codes "connection"))) [
      | inl p ↦ rw p (dump_headers-head_text websocket m gs tail rest e)
      | inr p ↦
          let ih = dump_headers-head_text websocket m gs tail rest e in
          let tail' = 13 ∷ 10 ∷ dump_headers websocket m in
          rw p (
            append_assoc k (58 ∷ 32 ∷ (v ++ tail')) tail
            ∙ ap (λ t. k ++ (58 ∷ 32 ∷ t))
                (append_assoc v tail' tail ∙ ap (λ t. v ++ (13 ∷ 10 ∷ t)) ih)
            ∙ sym (
                append_assoc k (58 ∷ 32 ∷ v)
                  (13 ∷ 10 ∷ head_text (header_fields websocket m ++ gs) rest)))
    ]

dump_connection-head_text :
    (websocket close : Bool) (gs : List Field) (tail rest : Bytes)
    → tail ≡ head_text gs rest
    → dump_connection websocket close ++ tail
      ≡ head_text (connection_fields websocket close ++ gs) rest
unfolding dump_connection
dump_connection-head_text true close gs tail rest e = e
dump_connection-head_text false true gs tail rest e =
    ap (λ t. codes "Connection: close" ++ (crlf ++ t)) e
dump_connection-head_text false false gs tail rest e =
    ap (λ t. codes "Connection: keep-alive" ++ (crlf ++ t)) e

decimal_digits-no_return : (fuel n : ℕ) → All (λ c. c ≢ 13) (decimal_digits fuel n)
unfolding decimal_digits
decimal_digits-no_return zero n = tt
decimal_digits-no_return (suc fuel) n = elim (Bool-cases (ltb n 10)) [
  | inl p ↦ rw p ((λ e. omega arith), tt)
  | inr p ↦ rw p (
      All-append (λ c. c ≢ 13) (decimal_digits fuel (n / 10)) ((n % 10 + 48) ∷ [])
        (decimal_digits-no_return fuel (n / 10)) ((λ e. omega arith), tt))
]

length_fields-IsField : (body : Bytes) → All IsField (length_fields body)
unfolding decimal
length_fields-IsField [] = tt
length_fields-IsField (x ∷ xs) = (
  record {
    no_colon = omega arith;
    no_return_name = omega arith;
    no_return_value =
        ((λ e. omega arith), decimal_digits-no_return (suc (length (x ∷ xs))) (length (x ∷ xs)));
  },
  tt,
)

header_fields-IsField :
    (websocket : Bool) (m : Headers)
    → All (λ e. IsField (spaced e)) m
    → All IsField (header_fields websocket m)
header_fields-IsField websocket [] h = tt
header_fields-IsField websocket ((k, v) ∷ m) h =
    elim (Bool-cases (not websocket && same_key k (codes "connection"))) [
      | inl p ↦ rw p (header_fields-IsField websocket m h.1)
      | inr p ↦ rw p (h.0, header_fields-IsField websocket m h.1)
    ]

connection_fields-IsField :
    (websocket close : Bool) → All IsField (connection_fields websocket close)
connection_fields-IsField true close = tt
connection_fields-IsField false true = (
  record { no_colon = omega arith; no_return_name = omega arith; no_return_value = omega arith },
  tt,
)
connection_fields-IsField false false = (
  record { no_colon = omega arith; no_return_name = omega arith; no_return_value = omega arith },
  tt,
)

dump_version-Version : (text : Bytes) (n : ℕ) → Version text n → dump_version n ≡ text
unfolding dump_version decimal decimal_digits
dump_version-Version text n one_one = refl
dump_version-Version text n one_zero = refl

line_assoc :
    (name path query fragment version tail : Bytes)
    → name ++ (32 ∷ (path ++ (query ++ (fragment ++ (32 ∷ (version ++ tail))))))
      ≡ (name ++ (32 ∷ ((path ++ (query ++ fragment)) ++ (32 ∷ version)))) ++ tail
line_assoc name path query fragment version tail = simp append_assoc

-- The text of a request as the parser's lines.
dump_request-head_text :
    (r : HttpRequest) (text : Bytes)
    → Version text r.version
    → dump_request r
      ≡ request_line (method_name r.method) (target_of r) text
        ++ (13 ∷ 10 ∷ head_text (printed_fields r) r.body)
unfolding dump_request
dump_request-head_text r text ver =
    let rest = head_text (printed_fields r) r.body in
    let lines =
      dump_connection-head_text r.websocket r.close
        (header_fields r.websocket r.headers ++ length_fields r.body)
        (dump_headers r.websocket r.headers ++ dump_body r.body) r.body
        (dump_headers-head_text r.websocket r.headers (length_fields r.body) (dump_body r.body)
          r.body (dump_body-head_text r.body)) in
    let front : Bytes → Bytes → Bytes = λ v t.
      method_name r.method
      ++ (32
          ∷ (r.path
              ++ (marked (codes "?") r.query
                  ++ (marked (codes "#") r.fragment ++ (32 ∷ (v ++ (13 ∷ 10 ∷ t))))))) in
    ap (front (dump_version r.version)) lines
    ∙ ap (λ v. front v rest) (dump_version-Version text r.version ver)
    ∙ line_assoc (method_name r.method) r.path (marked (codes "?") r.query)
        (marked (codes "#") r.fragment) text (13 ∷ 10 ∷ rest)

-- A buffer that holds what `dump` prints of a request is parsed in as many rounds as the head has lines.
-- The parser is then finished: its request has the path and the query that the printed target is split
-- into, the version, and every printed header with its value; the body is left in the buffer. The
-- version is 1.1 or 1.0, the target holds no space and no CR, and the headers no CR and no ':' in
-- their names.
pub parse_http_request-dump_request :
    (r r0 : HttpRequest) (text : Bytes) {b : Buffer}
    → IsValid b
    → IsRequestLine (method_name r.method) (target_of r) text
    → Version text r.version
    → All (λ e. IsField (spaced e)) r.headers
    → to_string b ≡ dump_request r
    → Finishes
        (store_fields
          (printed_fields r)
          (record (set_target (target_of r) r0) { version = r.version }))
        r.body
        (parse_http_request
          (suc (suc (length (printed_fields r))))
          (record { state = parser_line; request = r0 })
          b)
parse_http_request-dump_request r r0 text v line ver fields e =
    parse_http_request-Finishes (method_name r.method) (target_of r) text r.version
      (printed_fields r) r.body r0 v line ver
      (All-append IsField (connection_fields r.websocket r.close)
        (header_fields r.websocket r.headers ++ length_fields r.body)
        (connection_fields-IsField r.websocket r.close)
        (All-append IsField (header_fields r.websocket r.headers) (length_fields r.body)
          (header_fields-IsField r.websocket r.headers fields) (length_fields-IsField r.body)))
      (e ∙ dump_request-head_text r text ver)
