-- ===== src/Http/Client/Length.antt =====
-- The length that a server prints is the one that the client reads.
use shero.Common.{
  ℕ, zero, suc, ◌+◌, ◌*◌, ◌/◌, ◌%◌, ◌-◌, ◌^◌, ◌<◌, ◌≡◌, refl, ap, ◌∙◌, true, some, [], ◌∷◌, ◌++◌,
  ◌&&◌, leb, ltb, arith, Bool-cases, inl, inr,
}
use shero.Common.Bytes.{Bytes, decimal, decimal_digits}
use shero.Http.Client.Response.{or_zero, string2uint64_from, string2uint64}

-- What the digits of one part leave is where the next part goes on.
string2uint64_from-append :
    (num v : ℕ) (xs ys : Bytes)
    → string2uint64_from num xs ≡ some v
    → string2uint64_from num (xs ++ ys) ≡ string2uint64_from v ys
unfolding string2uint64_from
string2uint64_from-append num v [] ys h = ground arith
string2uint64_from-append num v (x ∷ xs) ys h = elim (Bool-cases (leb b'0' x && leb x b'9')) [
  | inl p ↦ rw p (string2uint64_from-append ((num * 10 + (x - b'0')) % 2 ^ 64) v xs ys (rw p at h))
  | inr p ↦ ground arith
]

one_digit :
    (num n : ℕ)
    → n < 10
    → num * 10 + n < 2 ^ 64
    → string2uint64_from num ((n + 48) ∷ []) ≡ some (num * 10 + n)
unfolding string2uint64_from
one_digit num n h lt =
    let digit : (leb b'0' (n + 48) && leb (n + 48) b'9') ≡ true = ground arith in
    let value : (num * 10 + (n + 48 - b'0')) % 2 ^ 64 ≡ num * 10 + n = omega arith in
    rw (digit, value) refl

decimal_digits-string2uint64 :
    (fuel n : ℕ) → n < fuel → n < 2 ^ 64 → string2uint64_from 0 (decimal_digits fuel n) ≡ some n
unfolding decimal_digits
decimal_digits-string2uint64 zero n h lt = absurd (omega arith)
decimal_digits-string2uint64 (suc fuel) n h lt = elim (Bool-cases (ltb n 10)) [
  | inl p ↦ rw p (one_digit 0 n (ground arith) (omega arith) ∙ ap some (omega arith))
  | inr p ↦ rw p (
      string2uint64_from-append 0 (n / 10) (decimal_digits fuel (n / 10)) ((n % 10 + 48) ∷ [])
        (decimal_digits-string2uint64 fuel (n / 10) (ground arith) (omega arith))
      ∙ one_digit (n / 10) (n % 10) (omega arith) (omega arith)
      ∙ ap some (omega arith))
]

-- `String2Uint64` reads back what a stream prints of a number of 64 bits.
pub string2uint64-decimal : (n : ℕ) → n < 2 ^ 64 → string2uint64 (decimal n) ≡ n
unfolding string2uint64 decimal
string2uint64-decimal n lt = ap or_zero (decimal_digits-string2uint64 (suc n) n (omega arith) lt)
