-- ===== src/Http/Parser.antt =====
-- shero/net/http/HttpParser.h and HttpParser.cc: the request parser over a connection's buffer.
pub mod Lines
pub mod Progress
pub mod Whole
pub mod Printed
use shero.Common.{
  ℕ, zero, suc, ◌+◌, ◌-◌, Bool, true, false, not, ◌&&◌, ◌||◌, Option, none, some, List, [], ◌∷◌,
  ◌==◌, leb, if◌then◌else◌, length, take, drop,
}
use shero.Common.Bytes.{Bytes, codes, bytes_eq, split_at}
use shero.Buffer.{Buffer, find_crlf, retrieve_until, peek}
use shero.Http.Status.{HttpMethod, invalid_method, string_to_method}
use shero.Http.Message.{HttpRequest, default_request, set_request_header}

pub data ParserState : Type 0 where
  parser_line parser_headers parser_body parser_finished : ParserState

pub record HttpParser : Type 0 where
  pub state : ParserState
  pub request : HttpRequest

unfoldable pub new_parser : HttpParser
new_parser = record { state = parser_line; request = default_request }

-- `reset()`, which swaps in a fresh request.
unfoldable pub reset : HttpParser → HttpParser
reset p = record { state = parser_line; request = default_request }

abbrev pub is_finished : HttpParser → Bool
is_finished p = elim p.state [ parser_finished ↦ true | _ ↦ false ]

-- `method == HttpMethod::INVALID_METHOD`.
abbrev pub is_invalid : HttpMethod → Bool
is_invalid invalid_method = true
is_invalid _ = false

-- The target: the path, and the query from its '?' on.
unfoldable pub set_target : Bytes → HttpRequest → HttpRequest
set_target target r = elim (split_at b'?' target) [
  | none ↦ record r { path = target }
  | some (before, after) ↦ record r { path = before; query = b'?' ∷ after }
]

-- The version: eight bytes, "HTTP/1." and a digit. The request keeps what was set before.
unfoldable pub parse_version : Bytes → HttpRequest → Bool × HttpRequest
parse_version text r =
    if not (length text == 8 && bytes_eq (take 7 text) (codes "HTTP/1."))
    then (false, r)
    else if bytes_eq text (codes "HTTP/1.1")
    then (true, record r { version = 0x11 })
    else if bytes_eq text (codes "HTTP/1.0")
    then (true, record r { version = 0x10 })
    else (false, r)

-- From the target on.
unfoldable pub parse_target : Option (Bytes × Bytes) → HttpRequest → Bool × HttpRequest
unfolding set_target parse_version
parse_target none r = (false, r)
parse_target (some (target, rest)) r = parse_version rest (set_target target r)

parse_method : Option (Bytes × Bytes) → HttpRequest → Bool × HttpRequest
parse_method none r = (false, r)
parse_method (some (name, rest)) r =
    if is_invalid (string_to_method name) then (false, r) else parse_target (split_at b' ' rest) r

-- `parserRequestLine`: whether the line is one, and the request as it leaves it. The method is
-- looked up and not stored.
unfoldable pub parse_request_line : Bytes → HttpRequest → Bool × HttpRequest
unfolding parse_method
parse_request_line line r = parse_method (split_at b' ' line) r

-- `isspace` in the C locale.
unfoldable pub is_space : ℕ → Bool
is_space c = c == 32 || (leb 9 c && leb c 13)

unfoldable pub skip_spaces : Bytes → Bytes
skip_spaces [] = []
skip_spaces (c ∷ cs) = let rest = skip_spaces cs in if is_space c then rest else c ∷ cs

-- The loop that cuts white space off the end.
unfoldable pub cut_spaces : Bytes → Bytes
cut_spaces [] = []
cut_spaces (c ∷ cs) = elim (cut_spaces cs) [
  | [] ↦ if is_space c then [] else c ∷ []
  | d ∷ ds ↦ c ∷ d ∷ ds
]

header_step : Option (Bytes × Bytes) → HttpParser → Bool × HttpParser
header_step none p = (true, record p { state = parser_finished })
header_step (some (key, rest)) p =
    (false, record p { request = set_request_header key (cut_spaces (skip_spaces rest)) p.request })

-- `parserHeaders`: a line without ':' ends the head.
unfoldable pub parse_header : Bytes → HttpParser → Bool × HttpParser
unfolding header_step
parse_header line p = header_step (split_at b':' line) p

-- `parserHttpRequest` returns, or an assert of the buffer fails, or it is still in its loop when
-- the fuel is spent.
pub data Outcome : Type 0 where
  returned : Bool → HttpParser → Buffer → Outcome
  assert_failed : Outcome
  looping : Outcome

-- What one round of the loop comes to.
pub data Round : Type 0 where
  leave : Bool → HttpParser → Buffer → Round
  again : HttpParser → Buffer → Round
  broken : Round

-- The bytes from `readIndex()` up to position `crlf`.
abbrev pub line_to : ℕ → Buffer → Bytes
line_to crlf b = peek (crlf - b.read_index) b

-- The end of a round, after `retrieveUntil`: return if `done`.
unfoldable pub after_line : Option Buffer → Bool → HttpParser → Round
after_line none done p = broken
after_line (some b) done p = if done then leave true p b else again p b

-- `ParserLine`: a bad line stays in the buffer.
unfoldable pub line_round : Option ℕ → HttpParser → Buffer → Round
unfolding after_line
line_round none p b = leave false p b
line_round (some crlf) p b =
    let (ok, r) = parse_request_line (line_to crlf b) p.request in
    if ok
    then after_line (retrieve_until (crlf + 2) b) false
        (record { state = parser_headers; request = r })
    else leave false (record p { request = r }) b

-- `ParserHeaders`.
unfoldable pub headers_round : Option ℕ → HttpParser → Buffer → Round
unfolding after_line
headers_round none p b = leave false p b
headers_round (some crlf) p b =
    let (ok, p') = parse_header (line_to crlf b) p in after_line (retrieve_until (crlf + 2) b) ok p'

-- One round, by the state. In `ParserBody` and `ParserFinished` it changes nothing.
unfoldable pub round_in : ParserState → HttpParser → Buffer → Round
unfolding line_round headers_round
round_in parser_line p b = line_round (find_crlf b) p b
round_in parser_headers p b = headers_round (find_crlf b) p b
round_in parser_body p b = again p b
round_in parser_finished p b = again p b

unfoldable pub parser_round : HttpParser → Buffer → Round
parser_round p b = round_in p.state p b

-- `do ... while(1)` of `parserHttpRequest`.
unfoldable pub parse_http_request : ℕ → HttpParser → Buffer → Outcome
parse_http_request zero p b = looping
parse_http_request (suc fuel) p b = elim (parser_round p b) [
  | leave ok p' b' ↦ returned ok p' b'
  | again p' b' ↦ parse_http_request fuel p' b'
  | broken ↦ assert_failed
]
