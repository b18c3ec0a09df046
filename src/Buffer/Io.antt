-- ===== src/Buffer/Io.antt =====
-- `readFd` and `findCRLF`: bytes that come from the kernel join the queue; a line end is found
-- where the first one is.
use shero.Common.{
  ℕ, zero, All, suc, ◌+◌, ◌-◌, ◌≤◌, ◌<◌, ◌≡◌, refl, ap, ◌∙◌, Option, none, some, [], ◌∷◌, ◌++◌,
  arith, length, take, drop, length-take, take-append-drop, append_assoc, leb, Bool-cases, inl, inr,
  ◌≢◌,
}
use shero.Common.Bytes.{Bytes}
use shero.Buffer.{
  Buffer, writeable_bytes, overwrite, to_string, put, write_len, SysResult, failed, done, size_max,
  iov_room, read_result, read_fd, search_crlf,
}
use shero.Buffer.Invariant.{IsValid, put-IsValid, write_len-IsValid}
use shero.Buffer.Content.{put-to_string, write_len-to_string}

-- Filling the storage to its end is a `put`.
fill-eq-put :
    (b : Buffer) (xs : Bytes) {n : ℕ}
    → n ≡ b.write_index + length xs
    → record b { bytes = overwrite b.bytes b.write_index xs; write_index = n } ≡ put xs b
unfolding put
fill-eq-put b xs e =
    ap (λ w. record b { bytes = overwrite b.bytes b.write_index xs; write_index = w }) e

full_length :
    {b : Buffer} (got : Bytes)
    → IsValid b
    → writeable_bytes b < length got
    → length b.bytes ≡ b.write_index + length (take (writeable_bytes b) got)
unfolding writeable_bytes
full_length {b} got v h = omega (arith, length-take (length b.bytes - b.write_index) got)

room_take : (b : Buffer) (got : Bytes) → length (take (writeable_bytes b) got) ≤ writeable_bytes b
room_take b got = omega (arith, length-take (writeable_bytes b) got)

-- The storage filled, and the rest written behind it.
spill :
    {b : Buffer} (got : Bytes)
    → IsValid b
    → let b' = write_len (drop (writeable_bytes b) got) (put (take (writeable_bytes b) got) b) in
      IsValid b' × (to_string b' ≡ to_string b ++ got)
spill {b} got v =
    let w = put-IsValid (take (writeable_bytes b) got) (room_take b got) v in
    (
      write_len-IsValid (drop (writeable_bytes b) got) w,
      write_len-to_string (drop (writeable_bytes b) got) w
          ∙ ap (λ t. t ++ drop (writeable_bytes b) got)
              (put-to_string (take (writeable_bytes b) got) v)
          ∙ append_assoc (to_string b) _ _
          ∙ ap (λ t. to_string b ++ t) (take-append-drop (writeable_bytes b) got),
    )

-- The buffer after a successful `readv` into the storage and the stack buffer.
read_result_done :
    {b : Buffer} (got : Bytes)
    → IsValid b
    → IsValid (read_result (done got) b).2
      × (to_string (read_result (done got) b).2 ≡ to_string b ++ got)
unfolding read_result
read_result_done {b} got v = elim (Bool-cases (leb (length got) (writeable_bytes b))) [
  | inl e ↦ rw e (put-IsValid got (ground arith) v, put-to_string got v)
  | inr e ↦
      rw (e, fill-eq-put b (take (writeable_bytes b) got) (full_length got v (ground arith)))
        (spill got v)
]

-- What a read does to the queue of readable bytes.
abbrev pub received : SysResult Bytes → Bytes → ℕ × Option ℕ × Bytes
received (failed e) q = (size_max, some e, q)
received (done got) q = (length got, none, q ++ got)

read_result_lem :
    (r : SysResult Bytes) {b : Buffer}
    → IsValid b
    → let (n, saved, b') = read_result r b in
      IsValid b' × ((n, saved, to_string b') ≡ received r (to_string b))
unfolding read_result
read_result_lem (failed e) v = (v, refl)
read_result_lem (done got) v =
    let (w, e) = read_result_done got v in (w, ap (λ q. (length got, none, q)) e)

-- Whatever `readv` gives for the room offered, `readFd` keeps a valid buffer valid, returns the
-- number of bytes read (-1 as a `size_t` and the errno on failure), and appends exactly the bytes
-- read to the readable bytes, also where they spill over the end of the storage.
pub read_fd_refines :
    (kernel : ℕ → SysResult Bytes) {b : Buffer}
    → IsValid b
    → let (n, saved, b') = read_fd kernel b in
      IsValid b' × ((n, saved, to_string b') ≡ received (kernel (iov_room b)) (to_string b))
unfolding read_fd
read_fd_refines kernel {b} v = read_result_lem (kernel (iov_room b)) v

-- A line without CR, closed by CRLF, is found at its length.
pub search_crlf_line :
    (xs ys : Bytes) → All (λ c. c ≢ 13) xs → search_crlf (xs ++ (13 ∷ 10 ∷ ys)) ≡ some (length xs)
unfolding search_crlf
search_crlf_line [] ys h = refl
search_crlf_line (x ∷ []) ys h = ground (arith, h.0)
search_crlf_line (x ∷ y ∷ xs) ys h = ground (arith, h.0, search_crlf_line (y ∷ xs) ys h.1)

-- What is found is a CRLF, and no CRLF starts before it.
pub search_crlf_sound :
    (xs : Bytes) (i : ℕ)
    → search_crlf xs ≡ some i
    → (drop i xs ≡ 13 ∷ 10 ∷ drop (suc (suc i)) xs) × (search_crlf (take (suc i) xs) ≡ none)
unfolding search_crlf
search_crlf_sound [] i h = cc
search_crlf_sound (x ∷ []) i h = cc
search_crlf_sound (x ∷ y ∷ xs) zero h = ground arith
search_crlf_sound (x ∷ y ∷ xs) (suc i) h = ground (arith, search_crlf_sound (y ∷ xs) i)
