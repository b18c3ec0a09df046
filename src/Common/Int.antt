-- ===== src/Common/Int.antt =====
-- Signed integers over the native numbers.
use Prim.Native.Nat.{ℕ, suc, ◌-◌, ◌^◌, ◌<◌}
use shero.Common.Tests.{ltb, if◌then◌else◌}

-- `negsuc n` is -(n + 1).
pub data ℤ : Type 0 where
  pos : ℕ → ℤ
  negsuc : ℕ → ℤ

-- The integer that a pattern of `w + 1` bits stands for in two's complement.
abbrev pub to_signed : ℕ → ℕ → ℤ
to_signed w p = if ltb p (2 ^ w) then pos p else negsuc (2 ^ suc w - p - 1)

-- The integers of `w + 1` bits.
abbrev pub IsSigned : ℕ → ℤ → Type 0
IsSigned w (pos n) = n < 2 ^ w
IsSigned w (negsuc n) = n < 2 ^ w

-- The pattern of `w + 1` bits of an integer.
abbrev pub of_signed : ℕ → ℤ → ℕ
of_signed w (pos n) = n
of_signed w (negsuc n) = 2 ^ suc w - n - 1
