-- ===== src/Buffer/Network.antt =====
-- The fixed-width integers on the wire: network order, round trip, and too few bytes.
use shero.Common.{
  ℕ, ◌+◌, ◌^◌, ◌≤◌, ◌<◌, ◌≡◌, sym, ap, ◌∙◌, [], ◌++◌, arith, length, take, drop, length-append,
  take-append_self, drop-append_self, ltb, Bool-cases, inl, inr,
}
use shero.Common.Bytes.{Bytes}
use shero.Buffer.{Buffer, readable_bytes, to_string, read_len, write_len}
use shero.Buffer.Invariant.{IsValid, length-to_string, write_len-IsValid}
use shero.Buffer.Content.{write_len-to_string, read_len_lem, read_len-to_string, read_len-IsValid}
use shero.Buffer.Fixed.{
  le_bytes, of_le, byteswap, be_bytes, write_fixed, read_fixed, length-be_bytes, le_bytes-byteswap,
  byteswap-of_le-be_bytes,
}

-- A fixed-width write to a valid buffer appends the integer in network byte order, high byte
-- first, and keeps the buffer valid.
pub write_fixed-to_string :
    (size v : ℕ) {b : Buffer}
    → IsValid b
    → (to_string (write_fixed size v b) ≡ to_string b ++ be_bytes size v)
      × IsValid (write_fixed size v b)
unfolding write_fixed
write_fixed-to_string size v {b} h = (
  rw le_bytes-byteswap (write_len-to_string (be_bytes size v) h),
  write_len-IsValid (le_bytes size (byteswap size v)) h,
)

pub front_length :
    {b : Buffer} (xs rest : Bytes)
    → IsValid b
    → to_string b ≡ xs ++ rest
    → readable_bytes b ≡ length xs + length rest
front_length xs rest h e = sym (length-to_string h) ∙ ap length e ∙ length-append xs rest

-- Reading `length xs` bytes from a buffer that starts with `xs`.
pub read_len_front :
    (size : ℕ) {b : Buffer} (xs rest : Bytes)
    → IsValid b
    → size ≡ length xs
    → to_string b ≡ xs ++ rest
    → let (got, b') = read_len size b in (got ≡ xs) × (to_string b' ≡ rest) × IsValid b'
read_len_front size {b} xs rest h s e = (
  read_len_lem size h (omega (arith, front_length xs rest h e))
      ∙ ap (take size) e
      ∙ ap (λ k. take k (xs ++ rest)) s
      ∙ take-append_self xs rest,
  read_len-to_string size h
      ∙ ap (drop size) e
      ∙ ap (λ k. drop k (xs ++ rest)) s
      ∙ drop-append_self xs rest,
  read_len-IsValid size h,
)

pub read_fixed_front :
    (size v : ℕ) {b : Buffer} (rest : Bytes)
    → v < 256 ^ size
    → IsValid b
    → to_string b ≡ be_bytes size v ++ rest
    → let (n, b') = read_fixed size b in (n ≡ v) × (to_string b' ≡ rest) × IsValid b'
unfolding read_fixed
read_fixed_front size v {b} rest hv h e = elim (Bool-cases (ltb (readable_bytes b) size)) [
  | inl short ↦
      absurd (ground (arith, front_length (be_bytes size v) rest h e, length-be_bytes size v))
  | inr enough ↦
      let (got, left, valid) =
        read_len_front size (be_bytes size v) rest h (sym (length-be_bytes size v)) e in
      rw enough
        (ap (λ t. byteswap size (of_le t)) got ∙ byteswap-of_le-be_bytes size v hv, left, valid)
]

-- A fixed-width integer that fits its width, written to an empty valid buffer and followed by any
-- bytes, is read back by the read of the same width, which leaves exactly those bytes.
pub read_fixed-write_fixed :
    (size v : ℕ) {b : Buffer} (more : Bytes)
    → v < 256 ^ size
    → IsValid b
    → to_string b ≡ []
    → let (n, b') = read_fixed size (write_len more (write_fixed size v b)) in
      (n ≡ v) × (to_string b' ≡ more) × IsValid b'
read_fixed-write_fixed size v {b} more hv h e =
    let (written, valid) = write_fixed-to_string size v h in
    read_fixed_front size v more hv (write_len-IsValid more valid) (
      write_len-to_string more valid
      ∙ ap (λ t. t ++ more) (written ∙ ap (λ t. t ++ be_bytes size v) e))

-- With too few readable bytes a read returns 0 and takes nothing.
pub read_fixed_short :
    (size : ℕ) (b : Buffer) → readable_bytes b < size → read_fixed size b ≡ (0, b)
unfolding read_fixed
read_fixed_short size b h = ground arith

-- A valid buffer whose readable bytes are `s`.
pub record Holds (b : Buffer) (s : Bytes) : Type 0 where
  pub valid : IsValid b
  pub text : to_string b ≡ s

pub Holds-write_len :
    {b : Buffer} {s : Bytes} (xs : Bytes) → Holds b s → Holds (write_len xs b) (s ++ xs)
Holds-write_len xs h = record {
  valid = write_len-IsValid xs h.valid;
  text = write_len-to_string xs h.valid ∙ ap (λ t. t ++ xs) h.text;
}

pub Holds-read_len :
    (size : ℕ) {b : Buffer} (xs rest : Bytes)
    → Holds b (xs ++ rest)
    → size ≡ length xs
    → ((read_len size b).0 ≡ xs) × Holds (read_len size b).1 rest
Holds-read_len size xs rest h e =
    let (got, left, valid) = read_len_front size xs rest h.valid e h.text in
    (got, record { valid = valid; text = left })

pub Holds-readable :
    {b : Buffer} (xs rest : Bytes) → Holds b (xs ++ rest) → length xs ≤ readable_bytes b
Holds-readable xs rest h = omega (arith, front_length xs rest h.valid h.text)
