-- ===== src/Common/Bits.antt =====
-- Facts about `bit_and`, `bit_or` and `bit_xor` that the codecs need.
use Prim.Native.Nat.{
  ℕ, zero, suc, ◌+◌, ◌*◌, ◌/◌, ◌%◌, ◌^◌, ◌≤◌, ◌<◌, max, min, ◌-◌, bit_and, bit_or, bit_xor, differ,
  digits, bitwise, bit_or-bitwise, bit_and-bitwise, bit_xor-bitwise,
}
use mathlib.Core.Path.{◌≡◌, refl, ap, ◌∙◌}
use mathlib.Core.Bool.{Bool, true, ◌&&◌}
use native.Mathlib.Nat.{pow-suc}
use native.Mathlib.Omega.{arith}
use shero.Common.Tests.{◌==◌, ==_iff}

-- Whether a test holds at every number below `n`.
every : (ℕ → Bool) → ℕ → Bool
every test zero = true
every test (suc n) = every test n && test n

every_at : (test : ℕ → Bool) {n : ℕ} (x : ℕ) → x < n → every test n ≡ true → test x ≡ true
unfolding every
every_at test {n = zero} x lt h = absurd (omega arith)
every_at test {n = suc n} x lt h = ground (arith, every_at test {n = n} x)

sets_top : ℕ → Bool
sets_top x = bit_or x 0x80 == x + 128

-- The 128 cases are computed.
sets_top_table : every sets_top 128 ≡ true
unfolding every sets_top
sets_top_table = refl

pub set_top : (x : ℕ) → x < 128 → bit_or x 0x80 ≡ x + 128
unfolding sets_top
set_top x h = (==_iff _ _).0 (every_at sets_top x h sets_top_table)

restores : ℕ → ℕ → Bool
restores x m = bit_xor (bit_xor x m) m == x

restores_row : ℕ → Bool
restores_row x = every (restores x) 256

restores_table : every restores_row 256 ≡ true
unfolding every restores_row restores
restores_table = refl

-- Masking a byte twice with the same key byte restores it.
pub xor_twice : (x m : ℕ) → x < 256 → m < 256 → bit_xor (bit_xor x m) m ≡ x
unfolding restores_row restores
xor_twice x m hx hm =
    (==_iff (bit_xor (bit_xor x m) m) x).0
      (every_at (restores x) m hm (every_at restores_row x hx restores_table))

-- The three operations are one recursion over the binary digits, `base` where the first number has
-- run out and `op` on two digits.
module _ (base : ℕ → ℕ) (op : ℕ → ℕ → ℕ) where
  one_more : (n a b : ℕ) → a ≤ n → digits base op (suc n) a b ≡ digits base op n a b
  one_more zero zero b h = refl
  one_more (suc n) zero b h = refl
  one_more zero (suc a) b h = absurd (omega arith)
  one_more (suc n) (suc a) b h = omega (arith, one_more n (suc a / 2) (b / 2) (omega arith))

  many_more : (k a b : ℕ) → digits base op (k + a) a b ≡ digits base op a a b
  many_more zero a b =
      ap (λ (n : ℕ). digits base op n a b) (let e : zero + a ≡ a = omega arith in e)
  many_more (suc k) a b =
      ap (λ (n : ℕ). digits base op n a b) (let e : suc k + a ≡ suc (k + a) = omega arith in e)
      ∙ one_more (k + a) a b (omega arith)
      ∙ many_more k a b

  rounds : (n a b : ℕ) → a ≤ n → digits base op n a b ≡ digits base op a a b
  rounds n a b h =
      ap (λ (k : ℕ). digits base op k a b) (let e : n ≡ n - a + a = omega arith in e)
      ∙ many_more (n - a) a b

  bitwise_step :
      ((b : ℕ) → base b ≡ base (b / 2) * 2 + op 0 (b % 2))
      → (a b : ℕ) → bitwise base op a b ≡ bitwise base op (a / 2) (b / 2) * 2 + op (a % 2) (b % 2)
  bitwise_step unroll zero b = unroll b
  bitwise_step unroll (suc a) b = omega (arith, rounds a (suc a / 2) (b / 2) (omega arith))

bit_or_step : (a b : ℕ) → bit_or a b ≡ bit_or (a / 2) (b / 2) * 2 + max (a % 2) (b % 2)
bit_or_step a b = omega (
  arith,
  bit_or-bitwise a b,
  bit_or-bitwise (a / 2) (b / 2),
  bitwise_step (λ b. b) max (λ b. omega arith) a b,
)

zero-bit_or : (b : ℕ) → bit_or 0 b ≡ b
zero-bit_or b = bit_or-bitwise 0 b

halve : (k a : ℕ) → a < 2 ^ suc k → a / 2 < 2 ^ k
halve k a h = omega (arith, pow-suc 2 k)

double_half : (s t : ℕ) → t ≡ s * 2 → t % 2 ≡ 0
double_half s t h = omega arith

half_shift : (k c : ℕ) → c * 2 ^ suc k / 2 ≡ c * 2 ^ k
half_shift k c = omega (arith, ap (λ (t : ℕ). c * t) (pow-suc 2 k))

-- Where the operands share no bit, `|` is `+`.
pub bit_or_disjoint : (k a c : ℕ) → a < 2 ^ k → bit_or a (c * 2 ^ k) ≡ a + c * 2 ^ k
bit_or_disjoint zero zero c h = omega (arith, zero-bit_or (c * 2 ^ zero))
bit_or_disjoint zero (suc a) c h = absurd (omega arith)
bit_or_disjoint (suc k) a c h = omega (
  arith,
  bit_or_step a (c * 2 ^ suc k),
  bit_or_disjoint k (a / 2) c (halve k a h),
  ap (λ (t : ℕ). c * t) (pow-suc 2 k),
  double_half (c * 2 ^ k) (c * 2 ^ suc k),
  ap (λ (t : ℕ). bit_or (a / 2) t) (half_shift k c),
)

low_bit : (a b : ℕ) → bit_and a b ≡ bit_and (a / 2) (b / 2) * 2 + min (a % 2) (b % 2)
low_bit a b = omega (
  arith,
  bit_and-bitwise a b,
  bit_and-bitwise (a / 2) (b / 2),
  bitwise_step (λ b. zero) min (λ b. omega arith) a b,
)

-- No bit is shared with 0. The first `n` halvings bring `a` down to 0.
clear : {n : ℕ} (a : ℕ) → a ≤ n → bit_and a 0 ≡ 0
clear {n = zero} zero h = refl
clear {n = zero} (suc a) h = absurd (omega arith)
clear {n = suc n} zero h = refl
clear {n = suc n} (suc k) h =
    omega (arith, low_bit (suc k) 0, clear {n = n} (suc k / 2) (omega arith))

pub bit_and-one : (a : ℕ) → bit_and a 1 ≡ a % 2
bit_and-one a = omega (arith, low_bit a 1, clear {n = a / 2} (a / 2) (omega arith))

-- A mask of ones is a remainder: four ones, then three more.
low_four : (a : ℕ) → bit_and a 0xf ≡ a % 16
low_four a =
    omega
      (arith, low_bit a 15, low_bit (a / 2) 7, low_bit (a / 2 / 2) 3, bit_and-one (a / 2 / 2 / 2))

-- `x & 0x7f` keeps the low seven bits.
pub low_seven : (a : ℕ) → bit_and a 0x7f ≡ a % 128
low_seven a =
    omega
      (arith, low_bit a 127, low_bit (a / 2) 63, low_bit (a / 2 / 2) 31, low_four (a / 2 / 2 / 2))

bit_xor_step : (a b : ℕ) → bit_xor a b ≡ bit_xor (a / 2) (b / 2) * 2 + differ (a % 2) (b % 2)
bit_xor_step a b = omega (
  arith,
  bit_xor-bitwise a b,
  bit_xor-bitwise (a / 2) (b / 2),
  bitwise_step (λ b. b) differ (λ b. omega arith) a b,
)

differ_zero : (d : ℕ) → differ d 0 ≡ d
differ_zero zero = refl
differ_zero (suc d) = refl

differ_one : (d : ℕ) → d < 2 → differ d 1 ≡ 1 - d
differ_one zero h = refl
differ_one (suc zero) h = refl
differ_one (suc (suc d)) h = absurd (omega arith)

bit_xor_zero_fuel : (n a : ℕ) → a ≤ n → bit_xor a 0 ≡ a
bit_xor_zero_fuel n zero h = refl
bit_xor_zero_fuel zero (suc a) h = absurd (omega arith)
bit_xor_zero_fuel (suc n) (suc a) h = omega (
  arith,
  bit_xor_step (suc a) 0,
  bit_xor_zero_fuel n (suc a / 2) (omega arith),
  differ_zero (suc a % 2),
)

pub bit_xor_zero : (a : ℕ) → bit_xor a 0 ≡ a
bit_xor_zero a = bit_xor_zero_fuel a a (omega arith)

pow_pos : (k : ℕ) → 0 < 2 ^ k
pow_pos zero = omega arith
pow_pos (suc k) = omega (arith, pow-suc 2 k, pow_pos k)

ones_half : (k : ℕ) → ((2 ^ suc k - 1) / 2 ≡ 2 ^ k - 1) × ((2 ^ suc k - 1) % 2 ≡ 1)
ones_half k = (omega (arith, pow-suc 2 k, pow_pos k), omega (arith, pow-suc 2 k, pow_pos k))

-- Exclusive or with `k` ones is the complement on `k` bits.
pub bit_xor_ones : (k a : ℕ) → a < 2 ^ k → bit_xor a (2 ^ k - 1) ≡ 2 ^ k - 1 - a
bit_xor_ones zero zero h = refl
bit_xor_ones zero (suc a) h = absurd (omega arith)
bit_xor_ones (suc k) a h = omega (
  arith,
  bit_xor_step a (2 ^ suc k - 1),
  ap (λ (t : ℕ). bit_xor (a / 2) t) (ones_half k).0,
  ap (λ (t : ℕ). differ (a % 2) t) (ones_half k).1,
  differ_one (a % 2) (omega arith),
  bit_xor_ones k (a / 2) (halve k a h),
  halve k a h,
  pow-suc 2 k,
)
