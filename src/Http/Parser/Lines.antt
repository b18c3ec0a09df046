-- ===== src/Http/Parser/Lines.antt =====
-- How `findCRLF` and `retrieveUntil` of the buffer take one line for the parser, and how much of
-- the buffer a round uses up.
use shero.Common.{
  ℕ, zero, suc, ◌+◌, ◌-◌, ◌≤◌, ◌≡◌, ◌≢◌, refl, sym, ap, ◌∙◌, true, Option, none, some, [], ◌∷◌,
  ◌++◌, leb, ◌&&◌, length, take, drop, All, arith, length-append, take-append_self,
  drop-append_self, drop-drop,
}
use shero.Common.Bytes.{Bytes}
use shero.Buffer.{
  Buffer, readable_bytes, to_string, retrieve, retrieve_until, search_crlf, find_crlf, peek,
}
use shero.Buffer.Invariant.{IsValid, length-to_string, retrieve-IsValid}
use shero.Buffer.Content.{retrieve-to_string, peek-to_string}
use shero.Buffer.Io.{search_crlf_line}
use shero.Http.Parser.{line_to}

-- The buffer without the first `n` readable bytes.
pub record Shorter (b : Buffer) (n : ℕ) : Type 0 where
  pub buffer : Buffer
  pub found : retrieve_until (b.read_index + n) b ≡ some buffer
  pub valid : IsValid buffer
  pub queue : to_string buffer ≡ drop n (to_string b)

until_test :
    {b : Buffer} (n : ℕ)
    → IsValid b
    → n ≤ readable_bytes b
    → (leb b.read_index (b.read_index + n) && leb (b.read_index + n) b.write_index) ≡ true
unfolding readable_bytes
until_test {b} n v h = ground arith

pub shorten : {b : Buffer} (n : ℕ) → IsValid b → n ≤ readable_bytes b → Shorter b n
unfolding retrieve_until
shorten {b} n v h = record {
  buffer = retrieve n b;
  found = rw (until_test n v h) (
      ap (λ (k : ℕ). some (retrieve k b))
        (let e : b.read_index + n - b.read_index ≡ n = omega arith in e));
  valid = retrieve-IsValid n v;
  queue = retrieve-to_string n v;
}

pub search_crlf_bound : (xs : Bytes) (i : ℕ) → search_crlf xs ≡ some i → suc (suc i) ≤ length xs
unfolding search_crlf
search_crlf_bound [] i h = cc
search_crlf_bound (x ∷ []) i h = cc
search_crlf_bound (x ∷ y ∷ xs) zero h = omega arith
search_crlf_bound (x ∷ y ∷ xs) (suc i) h = ground (arith, search_crlf_bound (y ∷ xs) i)

-- What is known where a line end is found.
pub data LineSearch (b : Buffer) : Type 0 where
  absent : find_crlf b ≡ none → LineSearch b
  present :
      (i : ℕ)
      → find_crlf b ≡ some (b.read_index + i)
      → suc (suc i) ≤ readable_bytes b
      → LineSearch b

pub line_search : {b : Buffer} → IsValid b → LineSearch b
unfolding find_crlf
line_search {b} v = go (search_crlf (to_string b)) refl
  where
    go : (o : Option ℕ) → search_crlf (to_string b) ≡ o → LineSearch b
    go none e = absent (rw (find_crlf, e) refl)
    go (some i) e =
        present i (rw (find_crlf, e) refl)
          (omega (arith, search_crlf_bound (to_string b) i e, length-to_string v))

-- The first line of the buffer, its CRLF, and what is behind it.
pub record Starts (b : Buffer) (line rest : Bytes) : Type 0 where
  pub next : Buffer
  pub crlf : find_crlf b ≡ some (b.read_index + length line)
  pub text : line_to (b.read_index + length line) b ≡ line
  pub past : retrieve_until (b.read_index + length line + 2) b ≡ some next
  pub valid : IsValid next
  pub queue : to_string next ≡ rest

length-line :
    (line rest : Bytes) → length (line ++ (13 ∷ 10 ∷ rest)) ≡ length line + 2 + length rest
length-line line rest = omega (arith, length-append line (13 ∷ 10 ∷ rest))

drop_line : (line rest : Bytes) → drop (length line + 2) (line ++ (13 ∷ 10 ∷ rest)) ≡ rest
drop_line line rest =
    sym (drop-drop 2 (length line) (line ++ (13 ∷ 10 ∷ rest)))
    ∙ ap (drop 2) (drop-append_self line (13 ∷ 10 ∷ rest))

find_line :
    (b : Buffer) (line rest : Bytes)
    → All (λ c. c ≢ 13) line
    → to_string b ≡ line ++ (13 ∷ 10 ∷ rest)
    → find_crlf b ≡ some (b.read_index + length line)
unfolding find_crlf
find_line b line rest h e = rw (find_crlf, e, search_crlf_line line rest h) refl

room_of_line :
    {b : Buffer} (line rest : Bytes)
    → IsValid b
    → to_string b ≡ line ++ (13 ∷ 10 ∷ rest)
    → readable_bytes b ≡ length line + 2 + length rest
room_of_line {b} line rest v e = sym (length-to_string v) ∙ ap length e ∙ length-line line rest

text_of_line :
    {b : Buffer} (line rest : Bytes)
    → IsValid b
    → to_string b ≡ line ++ (13 ∷ 10 ∷ rest)
    → line_to (b.read_index + length line) b ≡ line
text_of_line {b} line rest v e =
    ap (λ (k : ℕ). peek k b)
      (let d : b.read_index + length line - b.read_index ≡ length line = omega arith in d)
    ∙ peek-to_string (length line) v (omega (arith, room_of_line line rest v e))
    ∙ ap (take (length line)) e
    ∙ take-append_self line (13 ∷ 10 ∷ rest)

pub starts :
    {b : Buffer} (line rest : Bytes)
    → IsValid b
    → All (λ c. c ≢ 13) line
    → to_string b ≡ line ++ (13 ∷ 10 ∷ rest)
    → Starts b line rest
starts {b} line rest v h e =
    let s = shorten (length line + 2) v (omega (arith, room_of_line line rest v e)) in
    record {
      next = s.buffer;
      crlf = find_line b line rest h e;
      text = text_of_line line rest v e;
      past =
          ap (λ (k : ℕ). retrieve_until k b)
            (let d : b.read_index + length line + 2 ≡ b.read_index + (length line + 2) =
                omega arith in
              d)
          ∙ s.found;
      valid = s.valid;
      queue = s.queue ∙ ap (drop (length line + 2)) e ∙ drop_line line rest;
    }
