-- ===== src/Http/Client/Response.antt =====
-- `HttpParserResponse` of shero/net/http/client/HttpClient.cc, with HttpClientParser.cc: how a response is
-- put together from what was received. The parser of heads and chunk heads is generated by Ragel: a
-- parameter, `ResponseParser`.
use shero.Common.{
  ℕ, zero, suc, ◌+◌, ◌-◌, ◌*◌, ◌%◌, ◌^◌, Bool, true, false, not, ◌&&◌, Option, none, some, List, [],
  ◌∷◌, ◌++◌, ltb, leb, ◌==◌, if◌then◌else◌, length, take, drop,
}
use shero.Common.Bytes.{Bytes, codes}
use shero.Http.Message.{HttpResponse, response_header}

-- The digits of `String2Uint64`: `none` where it returns 0 for another character.
unfoldable pub string2uint64_from : ℕ → Bytes → Option ℕ
string2uint64_from num [] = some num
string2uint64_from num (i ∷ str) =
    let rest = string2uint64_from ((num * 10 + (i - b'0')) % 2 ^ 64) str in
    if leb b'0' i && leb i b'9' then rest else none

abbrev pub or_zero : Option ℕ → ℕ
or_zero none = 0
or_zero (some n) = n

unfoldable pub string2uint64 : Bytes → ℕ
unfolding string2uint64_from
string2uint64 str = or_zero (string2uint64_from 0 str)

-- The generated parser with the response that its callbacks fill. `execute` gives the number of bytes
-- it took; `content_len` is that of the chunk, from 0 to 2 ^ 31 - 1.
pub record ResponseParser (P : Type 0) : Type 0 where
  pub fresh : P  -- the constructor
  pub init : P → P  -- `httpclient_parser_init`
  pub execute : Bytes → P → P × ℕ
  pub has_error : P → Bool
  pub is_finished : P → Bool
  pub chunked : P → Bool
  pub content_len : P → ℕ
  pub chunks_done : P → Bool
  pub response : P → HttpResponse

-- `HttpResponseParser::execute(data, len, chunck)`: the parser, and what is left of the text.
unfoldable pub execute_text : {P : Type 0} → ResponseParser P → Bytes → Bool → P → P × Bytes
execute_text rp text chunck p =
    let start = if chunck then rp.init p else p in
    let (p', offset) = rp.execute text start in (p', drop offset text)

-- `HttpParserResponse`: a response, `nullptr`, or still in a loop when the fuel is spent.
pub data Parsed : Type 0 where
  parsed : HttpResponse → Parsed
  null : Parsed
  looping : Parsed

-- "\r\n" at the beginning is removed.
unfoldable pub skip_crlf : Bytes → Bytes
skip_crlf [] = []
skip_crlf (x ∷ []) = x ∷ []
skip_crlf (x ∷ y ∷ text) = if x == 13 && y == 10 then text else x ∷ y ∷ text

-- The next message of what was received, put behind the text.
unfoldable pub refill : Bytes → List Bytes → Bytes × List Bytes
refill msg [] = (msg, [])
refill msg (m ∷ rest) = (msg ++ m, rest)

-- A chunk's data beyond the message at hand: `none` where what was received ends first.
unfoldable pub take_remaining : ℕ → Bytes → Bytes → List Bytes → Option (Bytes × Bytes × List Bytes)
take_remaining zero body msg rest = some (body, msg, rest)
take_remaining (suc remain) body msg [] = none
take_remaining (suc remain) body msg (m ∷ rest) =
    let more = take_remaining (suc remain - length m) (body ++ m) [] rest in
    if leb (length m) (suc remain)
    then more
    else some (body ++ take (suc remain) m, drop (suc remain) m, rest)

-- A chunk's data: the body with it, and what follows.
unfoldable pub chunk_body : ℕ → Bytes → Bytes → List Bytes → Option (Bytes × Bytes × List Bytes)
unfolding take_remaining
chunk_body content_len body msg rest =
    if leb content_len (length msg)
    then some (body ++ take content_len msg, drop content_len msg, rest)
    else take_remaining (content_len - length msg) (body ++ msg) msg rest

-- What the search for a chunk's head comes to: the parser, the text behind the head and the messages
-- to come; or `nullptr`; or still in its loop.
pub data Head (P : Type 0) : Type 0 where
  ready : P → Bytes → List Bytes → Head P
  no_head : Head P
  no_end : Head P

-- All the messages put together.
abbrev pub concat : List Bytes → Bytes
concat [] = []
concat (m ∷ rest) = m ++ concat rest

unfoldable pub set_body : Bytes → HttpResponse → HttpResponse
set_body body res = record res { body = body }

module _ {P : Type 0} (rp : ResponseParser P) where
  -- The end of a round, behind `execute`; `again` is the next one.
  unfoldable pub after_execute : (P → Bytes → List Bytes → Head P) → P × Bytes → List Bytes → Head P
  after_execute again (p, msg) rest =
      if rp.has_error p
      then no_head
      else if rp.is_finished p
      then ready p msg rest
      else again p msg rest

  -- The inner loop, which looks for a chunk's head.
  unfoldable pub head_loop : ℕ → P → Bytes → List Bytes → Head P
  unfolding after_execute refill skip_crlf execute_text
  head_loop zero p msg rest = no_end
  head_loop (suc fuel) p [] [] = no_head
  head_loop (suc fuel) p [] (m ∷ rest) =
      after_execute (head_loop fuel) (execute_text rp (skip_crlf m) true p) rest
  head_loop (suc fuel) p (x ∷ xs) rest =
      let (msg, left) = refill (x ∷ xs) rest in
      after_execute (head_loop fuel) (execute_text rp (skip_crlf msg) true p) left

  -- Behind a chunk's data: the end, or the next chunk.
  unfoldable pub after_body :
      (P → Bytes → Bytes → List Bytes → Parsed) → P → Option (Bytes × Bytes × List Bytes) → Parsed
  unfolding set_body
  after_body again p none = null
  after_body again p (some (body, msg, rest)) =
      if rp.chunks_done p then parsed (set_body body (rp.response p)) else again p body msg rest

  unfoldable pub after_head : (P → Bytes → Bytes → List Bytes → Parsed) → Bytes → Head P → Parsed
  unfolding after_body
  after_head again body (ready p msg rest) =
      after_body again p (chunk_body (rp.content_len p) body msg rest)
  after_head again body no_head = null
  after_head again body no_end = looping

  -- `do … while(!chunks_done)`, with `heads` rounds for each head.
  unfoldable pub chunk_loop : ℕ → ℕ → P → Bytes → Bytes → List Bytes → Parsed
  unfolding after_head head_loop
  chunk_loop heads zero p body msg rest = looping
  chunk_loop heads (suc fuel) p body msg rest =
      after_head (chunk_loop heads fuel) body (head_loop heads p msg rest)

  -- `getContentLength`.
  unfoldable pub content_length : P → ℕ
  content_length p = string2uint64 (response_header (rp.response p) (codes "Content-Length") [])

  -- The body of a response that is not chunked.
  unfoldable pub length_body : P → Bytes → Parsed
  unfolding content_length set_body
  length_body p msg =
      if ltb (length msg) (content_length p)
      then null
      else parsed (set_body (take (content_length p) msg) (rp.response p))

  -- Behind the head of the response.
  unfoldable pub parse_body : ℕ → P → Bytes → List Bytes → Parsed
  unfolding chunk_loop length_body
  parse_body fuel p msg rest =
      if rp.chunked p
      then chunk_loop fuel fuel p [] msg rest
      else length_body p (msg ++ concat rest)

  -- `HttpParserResponse` on one message and those that follow it.
  unfoldable pub parse_response : ℕ → Bytes → List Bytes → Parsed
  unfolding execute_text parse_body
  parse_response fuel m rest =
      let (p, msg) = execute_text rp m false rp.fresh in
      if rp.has_error p
      then null
      else if not (rp.is_finished p)
      then null
      else parse_body fuel p msg rest
