-- ===== src/Buffer/Signed.antt =====
-- The signed fixed-width reads and writes of shero/net/Buffer.cc: the same bytes, read as two's
-- complement.
use shero.Common.Int.{ℤ, to_signed, of_signed}
use shero.Buffer.{Buffer}
use shero.Buffer.Fixed.{read_fixed, write_fixed}

unfoldable pub read_int8 : Buffer → ℤ × Buffer
unfolding read_fixed
read_int8 b = let (n, b') = read_fixed 1 b in (to_signed 7 n, b')

unfoldable pub read_int16 : Buffer → ℤ × Buffer
unfolding read_fixed
read_int16 b = let (n, b') = read_fixed 2 b in (to_signed 15 n, b')

unfoldable pub read_int32 : Buffer → ℤ × Buffer
unfolding read_fixed
read_int32 b = let (n, b') = read_fixed 4 b in (to_signed 31 n, b')

unfoldable pub read_int64 : Buffer → ℤ × Buffer
unfolding read_fixed
read_int64 b = let (n, b') = read_fixed 8 b in (to_signed 63 n, b')

unfoldable pub write_int8 : ℤ → Buffer → Buffer
unfolding write_fixed
write_int8 v b = write_fixed 1 (of_signed 7 v) b

unfoldable pub write_int16 : ℤ → Buffer → Buffer
unfolding write_fixed
write_int16 v b = write_fixed 2 (of_signed 15 v) b

unfoldable pub write_int32 : ℤ → Buffer → Buffer
unfolding write_fixed
write_int32 v b = write_fixed 4 (of_signed 31 v) b

unfoldable pub write_int64 : ℤ → Buffer → Buffer
unfolding write_fixed
write_int64 v b = write_fixed 8 (of_signed 63 v) b
