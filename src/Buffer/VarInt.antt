-- ===== src/Buffer/VarInt.antt =====
-- The variable-length integers of shero/net/Buffer.cc: seven bits a byte, lowest group first, and
-- the zigzag code for signed values. `width` is 32 or 64.
pub mod RoundTrip
pub mod Zigzag
use Prim.Native.Nat.{bit_and, bit_or, bit_xor}
use mathlib.Core.Option
use shero.Common.{
  ℕ, zero, suc, ◌+◌, ◌-◌, ◌*◌, ◌/◌, ◌%◌, ◌^◌, Option, none, some, List, [], ◌∷◌, ltb, if◌then◌else◌,
}
use shero.Common.Bytes.{Bytes}
use shero.Common.Int.{ℤ, pos, negsuc, to_signed}
use shero.Buffer.{Buffer, write_len}
use shero.Buffer.Fixed.{read_fixed}

-- The loop that fills `tmp`. `slots` is what is left of `tmp[5]` or `tmp[10]`; `none` is a write
-- past its end.
unfoldable pub groups : ℕ → ℕ → Option Bytes
groups zero v = none
groups (suc slots) v =
    let rest = groups slots (v / 128) in
    if ltb v 0x80 then some (v ∷ []) else Option.map (λ t. bit_or (bit_and v 0x7F) 0x80 ∷ t) rest

unfoldable pub write_var_uint32 : ℕ → Buffer → Option Buffer
unfolding groups
write_var_uint32 v b = Option.map (λ tmp. write_len tmp b) (groups 5 v)

unfoldable pub write_var_uint64 : ℕ → Buffer → Option Buffer
unfolding groups
write_var_uint64 v b = Option.map (λ tmp. write_len tmp b) (groups 10 v)

-- `for(int i = 0; i < width; i += 7)` with `rounds` rounds left.
unfoldable pub read_var_loop : ℕ → ℕ → ℕ → ℕ → Buffer → ℕ × Buffer
read_var_loop width zero i result b = (result, b)
read_var_loop width (suc rounds) i result b =
    let (x, b') = read_fixed 1 b in
    let more =
      read_var_loop width rounds (i + 7) (bit_or result (bit_and x 0x7f * 2 ^ i % 2 ^ width)) b' in
    if ltb x 0x80 then (bit_or result (x * 2 ^ i % 2 ^ width), b') else more

-- i = 0, 7, …, 28.
unfoldable pub read_var_uint32 : Buffer → ℕ × Buffer
unfolding read_var_loop
read_var_uint32 b = read_var_loop 32 5 0 0 b

-- i = 0, 7, …, 63.
unfoldable pub read_var_uint64 : Buffer → ℕ × Buffer
unfolding read_var_loop
read_var_uint64 b = read_var_loop 64 10 0 0 b

-- `EncodeZigzag32` and `EncodeZigzag64`, at `width` bits; the arithmetic is that of the unsigned
-- type. (For the least value `-v` leaves the signed type; its pattern is taken.)
unfoldable pub encode_zigzag : ℕ → ℤ → ℕ
encode_zigzag width (pos n) = n * 2 % 2 ^ width
encode_zigzag width (negsuc n) = (suc n % 2 ^ width * 2 + 2 ^ width - 1) % 2 ^ width

-- `(v >> 1) ^ -(v & 1)`, and the conversion to the signed type of `bits + 1` bits.
unfoldable pub decode_zigzag : ℕ → ℕ → ℤ
decode_zigzag bits v =
    to_signed bits (bit_xor (v / 2) ((2 ^ suc bits - bit_and v 1) % 2 ^ suc bits))

unfoldable pub write_var_int32 : ℤ → Buffer → Option Buffer
write_var_int32 v b = write_var_uint32 (encode_zigzag 32 v) b

unfoldable pub write_var_int64 : ℤ → Buffer → Option Buffer
write_var_int64 v b = write_var_uint64 (encode_zigzag 64 v) b

unfoldable pub read_var_int32 : Buffer → ℤ × Buffer
read_var_int32 b = let (v, b') = read_var_uint32 b in (decode_zigzag 31 v, b')

unfoldable pub read_var_int64 : Buffer → ℤ × Buffer
read_var_int64 b = let (v, b') = read_var_uint64 b in (decode_zigzag 63 v, b')
