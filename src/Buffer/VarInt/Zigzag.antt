-- ===== src/Buffer/VarInt/Zigzag.antt =====
-- The zigzag code, and the signed variable-length integers that use it.
use Prim.Native.Nat.{bit_and, bit_xor}
use native.Mathlib.Nat.{mod-eq_of_lt, pow-suc, add-mod_right, mod_self}
use shero.Common.{ℕ, suc, ◌+◌, ◌-◌, ◌*◌, ◌/◌, ◌%◌, ◌^◌, ◌<◌, ◌≡◌, ap, ◌∙◌, some, [], arith}
use shero.Common.Bytes.{Bytes}
use shero.Common.Bits.{bit_xor_zero, bit_xor_ones, bit_and-one}
use shero.Common.Int.{ℤ, pos, negsuc, to_signed, IsSigned}
use shero.Buffer.{Buffer, to_string, write_len}
use shero.Buffer.Invariant.{IsValid}
use shero.Buffer.VarInt.{
  encode_zigzag, decode_zigzag, write_var_int32, write_var_int64, read_var_int32, read_var_int64,
}
use shero.Buffer.VarInt.RoundTrip.{
  read_var_uint32-write_var_uint32, read_var_uint64-write_var_uint64,
}

module _ (bits n : ℕ) (h : n < 2 ^ bits) where
  encode_pos : encode_zigzag (suc bits) (pos n) ≡ 2 * n
  unfolding encode_zigzag
  encode_pos = mod-eq_of_lt (omega (arith, pow-suc 2 bits)) ∙ omega arith

  encode_negsuc : encode_zigzag (suc bits) (negsuc n) ≡ 2 * n + 1
  unfolding encode_zigzag
  encode_negsuc =
      let small : suc n % 2 ^ suc bits ≡ suc n = mod-eq_of_lt (omega (arith, pow-suc 2 bits)) in
      rw small (
        ap (λ k. k % 2 ^ suc bits)
          (let e : suc n * 2 + 2 ^ suc bits - 1 ≡ 2 * n + 1 + 2 ^ suc bits = omega arith in e)
        ∙ add-mod_right (2 * n + 1) (2 ^ suc bits)
        ∙ mod-eq_of_lt {m = 2 ^ suc bits} (omega (arith, pow-suc 2 bits)))

  sign_even : (2 ^ suc bits - bit_and (2 * n) 1) % 2 ^ suc bits ≡ 0
  sign_even =
      ap (λ k. (2 ^ suc bits - k) % 2 ^ suc bits) (bit_and-one (2 * n) ∙ even)
      ∙ ap (λ k. k % 2 ^ suc bits) whole
      ∙ mod_self (2 ^ suc bits)
    where
      whole : 2 ^ suc bits - 0 ≡ 2 ^ suc bits
      whole = omega arith

      even : 2 * n % 2 ≡ 0
      even = omega arith

  sign_odd : (2 ^ suc bits - bit_and (2 * n + 1) 1) % 2 ^ suc bits ≡ 2 ^ suc bits - 1
  sign_odd =
      ap (λ k. (2 ^ suc bits - k) % 2 ^ suc bits) (bit_and-one (2 * n + 1) ∙ odd)
      ∙ mod-eq_of_lt (omega (arith, pow-suc 2 bits))
    where
      odd : (2 * n + 1) % 2 ≡ 1
      odd = omega arith

  decode_even : decode_zigzag bits (2 * n) ≡ pos n
  unfolding decode_zigzag
  decode_even =
      ap (to_signed bits) (ap (bit_xor (2 * n / 2)) sign_even ∙ bit_xor_zero (2 * n / 2) ∙ halve)
      ∙ ground arith
    where
      halve : 2 * n / 2 ≡ n
      halve = omega arith

  decode_odd : decode_zigzag bits (2 * n + 1) ≡ negsuc n
  unfolding decode_zigzag
  decode_odd =
      ap (to_signed bits) (
        ap (bit_xor ((2 * n + 1) / 2)) sign_odd
        ∙ ap (λ k. bit_xor k (2 ^ suc bits - 1)) halve
        ∙ bit_xor_ones (suc bits) n (omega (arith, pow-suc 2 bits)))
      ∙ ground (arith, pow-suc 2 bits)
    where
      halve : (2 * n + 1) / 2 ≡ n
      halve = omega arith

-- Decoding the zigzag code of a signed integer of `bits + 1` bits gives the integer back, the
-- least one included.
pub decode_zigzag-encode_zigzag :
    (bits : ℕ) (v : ℤ) → IsSigned bits v → decode_zigzag bits (encode_zigzag (suc bits) v) ≡ v
decode_zigzag-encode_zigzag bits (pos n) h =
    ap (decode_zigzag bits) (encode_pos bits n h) ∙ decode_even bits n h
decode_zigzag-encode_zigzag bits (negsuc n) h =
    ap (decode_zigzag bits) (encode_negsuc bits n h) ∙ decode_odd bits n h

encode_zigzag-lt : (bits : ℕ) (v : ℤ) → IsSigned bits v → encode_zigzag (suc bits) v < 2 ^ suc bits
encode_zigzag-lt bits (pos n) h = omega (arith, encode_pos bits n h, pow-suc 2 bits)
encode_zigzag-lt bits (negsuc n) h = omega (arith, encode_negsuc bits n h, pow-suc 2 bits)

-- Every `int32_t` written by `writeVarInt32` to an empty valid buffer is read back by
-- `readVarInt32`, which leaves exactly the bytes written after it.
pub read_var_int32-write_var_int32 :
    (v : ℤ) {b : Buffer} (more : Bytes)
    → IsSigned 31 v
    → IsValid b
    → to_string b ≡ []
    → (b' : Buffer) × (write_var_int32 v b ≡ some b')
      × let (n, rest) = read_var_int32 (write_len more b') in
        (n ≡ v) × (to_string rest ≡ more) × IsValid rest
unfolding write_var_int32 read_var_int32
read_var_int32-write_var_int32 v more hv h e =
    let (b', wrote, back) =
      read_var_uint32-write_var_uint32 (encode_zigzag 32 v) more (encode_zigzag-lt 31 v hv) h e in
    (
      b',
      wrote,
      (ap (decode_zigzag 31) back.0 ∙ decode_zigzag-encode_zigzag 31 v hv, back.1, back.2),
    )

-- Every `int64_t` written by `writeVarInt64` to an empty valid buffer is read back by
-- `readVarInt64`, which leaves exactly the bytes written after it.
pub read_var_int64-write_var_int64 :
    (v : ℤ) {b : Buffer} (more : Bytes)
    → IsSigned 63 v
    → IsValid b
    → to_string b ≡ []
    → (b' : Buffer) × (write_var_int64 v b ≡ some b')
      × let (n, rest) = read_var_int64 (write_len more b') in
        (n ≡ v) × (to_string rest ≡ more) × IsValid rest
unfolding write_var_int64 read_var_int64
read_var_int64-write_var_int64 v more hv h e =
    let (b', wrote, back) =
      read_var_uint64-write_var_uint64 (encode_zigzag 64 v) more (encode_zigzag-lt 63 v hv) h e in
    (
      b',
      wrote,
      (ap (decode_zigzag 63) back.0 ∙ decode_zigzag-encode_zigzag 63 v hv, back.1, back.2),
    )
