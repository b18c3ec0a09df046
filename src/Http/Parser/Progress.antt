-- ===== src/Http/Parser/Progress.antt =====
-- The loop of `parserHttpRequest`: where it ends, what it keeps, and where it does not end.
use shero.Common.{
  ℕ, zero, suc, ◌+◌, ◌<◌, ◌≤◌, ◌≡◌, refl, ap, ◌∙◌, Bool, true, false, Option, none, some, ◌⊎◌, inl,
  inr, if◌then◌else◌, Bool-cases, arith, length, length-drop, Option-cases,
}
use shero.Common.Bytes.{Bytes, split_at}
use shero.Buffer.{Buffer, readable_bytes, to_string, retrieve_until, find_crlf}
use shero.Buffer.Invariant.{IsValid, length-to_string}
use shero.Http.Status.{HttpMethod, string_to_method}
use shero.Http.Message.{HttpRequest, set_request_header}
use shero.Http.Parser.{
  ParserState, parser_line, parser_headers, parser_body, parser_finished, HttpParser, is_finished,
  set_target, parse_version, parse_target, parse_method, parse_request_line, parse_header,
  header_step, Outcome, returned, assert_failed, looping, Round, leave, again, broken, after_line,
  line_to, line_round, headers_round, parser_round, round_in, parse_http_request, is_invalid,
}
use shero.Http.Parser.Lines.{Shorter, shorten, absent, present, line_search}

set_target-method : (t : Bytes) (r : HttpRequest) → (set_target t r).method ≡ r.method
unfolding set_target
set_target-method t r = elim (Option-cases (split_at b'?' t)) [
  | inl e ↦ rw (set_target, e) refl
  | inr (a, e) ↦ rw (set_target, e) refl
]

parse_version-method : (t : Bytes) (r : HttpRequest) → (parse_version t r).1.method ≡ r.method
unfolding parse_version
parse_version-method t r = ground arith

parse_target-method :
    (o : Option (Bytes × Bytes)) (r : HttpRequest) → (parse_target o r).1.method ≡ r.method
unfolding parse_target
parse_target-method none r = refl
parse_target-method (some (t, rest)) r =
    parse_version-method rest (set_target t r) ∙ set_target-method t r

parse_method-method :
    (o : Option (Bytes × Bytes)) (r : HttpRequest) → (parse_method o r).1.method ≡ r.method
unfolding parse_method
parse_method-method none r = refl
parse_method-method (some (name, rest)) r = elim (Bool-cases (is_invalid (string_to_method name))) [
  | inl e ↦ rw e refl
  | inr e ↦ rw e (parse_target-method (split_at b' ' rest) r)
]

-- A request line is checked against the methods and never changes the method of the request.
pub parse_request_line-method :
    (line : Bytes) (r : HttpRequest) → (parse_request_line line r).1.method ≡ r.method
unfolding parse_request_line
parse_request_line-method line r = parse_method-method (split_at b' ' line) r

abbrev pub IsReading : ParserState → Type 0
IsReading s = (s ≡ parser_line) ⊎ (s ≡ parser_headers)

-- What a round gives that does not break: a valid buffer, the method as it was, `true` exactly when
-- the head is finished, and, where it goes on, two bytes fewer.
abbrev pub RoundGoes : HttpParser → Buffer → Round → Type 0
RoundGoes p b (leave ok p' b') =
    IsValid b' × (p'.request.method ≡ p.request.method) × (is_finished p' ≡ ok)
RoundGoes p b (again p' b') =
    IsValid b'
    × (p'.request.method ≡ p.request.method)
    × IsReading p'.state
    × (readable_bytes b' + 2 ≤ readable_bytes b)
RoundGoes p b broken = ⊥

Shorter-readable :
    {b : Buffer} {n : ℕ}
    → IsValid b
    → n ≤ readable_bytes b
    → (s : Shorter b n) → readable_bytes s.buffer + n ≤ readable_bytes b
Shorter-readable {b} {n} v h s = omega (
  arith,
  length-to_string s.valid,
  length-to_string v,
  ap length s.queue,
  length-drop n (to_string b),
)

past_line : {b : Buffer} (i : ℕ) → IsValid b → suc (suc i) ≤ readable_bytes b → Shorter b (i + 2)
past_line i v h = shorten (i + 2) v (omega arith)

-- The end of a round where the line is there.
after_line-RoundGoes :
    {b : Buffer} (i : ℕ) (done : Bool) (p p' : HttpParser)
    → IsValid b
    → suc (suc i) ≤ readable_bytes b
    → p'.request.method ≡ p.request.method
    → is_finished p' ≡ done
    → (done ≡ false → IsReading p'.state)
    → RoundGoes p b (after_line (retrieve_until (b.read_index + i + 2) b) done p')
unfolding after_line
after_line-RoundGoes {b} i done p p' v h m f g =
    let s = past_line i v h in
    let past : retrieve_until (b.read_index + i + 2) b ≡ some s.buffer =
      ap (λ (k : ℕ). retrieve_until k b)
        (let d : b.read_index + i + 2 ≡ b.read_index + (i + 2) = omega arith in d)
      ∙ s.found in
    rw past (go done f g s)
  where
    go :
        (done : Bool)
        → is_finished p' ≡ done
        → (done ≡ false → IsReading p'.state)
        → (s : Shorter b (i + 2))
        → RoundGoes p b (if done then leave true p' s.buffer else again p' s.buffer)
    go true f g s = (s.valid, m, f)
    go false f g s = (
      s.valid,
      m,
      g refl,
      omega (arith, Shorter-readable v (let e : i + 2 ≤ readable_bytes b = omega arith in e) s),
    )

unfinished : (p : HttpParser) → IsReading p.state → is_finished p ≡ false
unfinished p (inl e) = ap (λ s. is_finished (record p { state = s })) e
unfinished p (inr e) = ap (λ s. is_finished (record p { state = s })) e

line_found-RoundGoes :
    {b : Buffer} (p : HttpParser) (i : ℕ)
    → IsValid b
    → p.state ≡ parser_line
    → suc (suc i) ≤ readable_bytes b
    → RoundGoes p b (line_round (some (b.read_index + i)) p b)
unfolding line_round
line_found-RoundGoes {b} p i v st h =
    let line = line_to (b.read_index + i) b in
    let m = parse_request_line-method line p.request in
    elim (Bool-cases (parse_request_line line p.request).0) [
      | inl e ↦ rw e (
          after_line-RoundGoes i false p
            (record { state = parser_headers; request = (parse_request_line line p.request).1 }) v h
            m refl (λ _. inr refl))
      | inr e ↦ rw e (v, m, unfinished p (inl st))
    ]

line_round-RoundGoes :
    {b : Buffer} (p : HttpParser)
    → IsValid b
    → p.state ≡ parser_line
    → RoundGoes p b (line_round (find_crlf b) p b)
unfolding line_round
line_round-RoundGoes {b} p v st = elim (line_search v) [
  | absent e ↦ rw e (v, refl, unfinished p (inl st))
  | present i e h ↦ rw e (line_found-RoundGoes p i v st h)
]

-- What a header line does to the parser.
header_step-effect :
    (o : Option (Bytes × Bytes)) (p : HttpParser)
    → p.state ≡ parser_headers
    → let (ok, p') = header_step o p in
      (p'.request.method ≡ p.request.method)
      × (is_finished p' ≡ ok)
      × (ok ≡ false → IsReading p'.state)
unfolding header_step set_request_header
header_step-effect none p st = (refl, refl, λ e. cc)
header_step-effect (some (key, rest)) p st = (refl, unfinished p (inr st), λ e. inr st)

headers_found-RoundGoes :
    {b : Buffer} (p : HttpParser) (i : ℕ)
    → IsValid b
    → p.state ≡ parser_headers
    → suc (suc i) ≤ readable_bytes b
    → RoundGoes p b (headers_round (some (b.read_index + i)) p b)
unfolding headers_round parse_header
headers_found-RoundGoes {b} p i v st h =
    let o = split_at b':' (line_to (b.read_index + i) b) in
    let (m, f, g) = header_step-effect o p st in
    after_line-RoundGoes i (header_step o p).0 p (header_step o p).1 v h m f g

headers_round-RoundGoes :
    {b : Buffer} (p : HttpParser)
    → IsValid b
    → p.state ≡ parser_headers
    → RoundGoes p b (headers_round (find_crlf b) p b)
unfolding headers_round
headers_round-RoundGoes {b} p v st = elim (line_search v) [
  | absent e ↦ rw e (v, refl, unfinished p (inr st))
  | present i e h ↦ rw e (headers_found-RoundGoes p i v st h)
]

pub parser_round_at :
    (s : ParserState) (p : HttpParser) (b : Buffer)
    → p.state ≡ s
    → parser_round p b ≡ round_in s p b
unfolding parser_round
parser_round_at s p b e = ap (λ t. round_in t p b) e

parser_round-RoundGoes :
    {b : Buffer} (p : HttpParser) → IsValid b → IsReading p.state → RoundGoes p b (parser_round p b)
unfolding round_in
parser_round-RoundGoes {b} p v (inl e) =
    rw (parser_round_at parser_line p b e) (line_round-RoundGoes p v e)
parser_round-RoundGoes {b} p v (inr e) =
    rw (parser_round_at parser_headers p b e) (headers_round-RoundGoes p v e)

-- The loop returned, with a valid buffer and the method `m`, and returned `true` exactly when the
-- parser is finished.
abbrev pub Settles : HttpMethod → Outcome → Type 0
Settles m (returned ok p b) = IsValid b × (p.request.method ≡ m) × (is_finished p ≡ ok)
Settles m assert_failed = ⊥
Settles m looping = ⊥

Settles-from :
    (m : HttpMethod) (fuel : ℕ) (p : HttpParser) {b : Buffer}
    → IsValid b
    → IsReading p.state
    → p.request.method ≡ m
    → readable_bytes b < fuel
    → Settles m (parse_http_request fuel p b)
unfolding parse_http_request
Settles-from m zero p v st e h = absurd (omega arith)
Settles-from m (suc fuel) p {b} v st e h =
    go (λ p' b' w rd eq lt. Settles-from m fuel p' {b = b'} w rd eq lt) (parser_round p b)
      (parser_round-RoundGoes p v st)
  where
    go :
        ((p' : HttpParser) (b' : Buffer)
          → IsValid b'
          → IsReading p'.state
          → p'.request.method ≡ m
          → readable_bytes b' < fuel
          → Settles m (parse_http_request fuel p' b'))
        → (r : Round) → RoundGoes p b r
        → Settles m (elim r [
          | leave ok p' b' ↦ returned ok p' b'
          | again p' b' ↦ parse_http_request fuel p' b'
          | broken ↦ assert_failed
        ])
    go rec (leave ok p' b') (w, k, f) = (w, k ∙ e, f)
    go rec (again p' b') (w, k, rd, lt) = rec p' b' w rd (k ∙ e) (omega arith)
    go rec broken g = absurd g

-- From a parser that reads the request line or the headers and a valid buffer, one round more than
-- the readable bytes is enough: `parserHttpRequest` returns, no assert of the buffer fails, the
-- buffer is valid, the request's method is the one it had before, and `true` comes back exactly
-- when the parser is finished.
pub parse_http_request-Settles :
    (fuel : ℕ) (p : HttpParser) {b : Buffer}
    → IsValid b
    → IsReading p.state
    → readable_bytes b < fuel
    → Settles p.request.method (parse_http_request fuel p b)
parse_http_request-Settles fuel p v st h = Settles-from p.request.method fuel p v st refl h

-- In `ParserFinished` and in `ParserBody` the loop never ends, whatever the buffer holds.
pub parse_http_request_stuck :
    (fuel : ℕ) (p : HttpParser) (b : Buffer)
    → (p.state ≡ parser_finished) ⊎ (p.state ≡ parser_body)
    → parse_http_request fuel p b ≡ looping
unfolding parse_http_request round_in
parse_http_request_stuck zero p b h = refl
parse_http_request_stuck (suc fuel) p b (inl e) =
    rw (parse_http_request, parser_round_at parser_finished p b e)
      (parse_http_request_stuck fuel p b (inl e))
parse_http_request_stuck (suc fuel) p b (inr e) =
    rw (parse_http_request, parser_round_at parser_body p b e)
      (parse_http_request_stuck fuel p b (inr e))
