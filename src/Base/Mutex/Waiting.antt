-- ===== src/Base/Mutex/Waiting.antt =====
-- `holder_` of shero/base/Mutex.h while threads wait on condition variables, with the `UnassignGuard`
-- that the header has for this, and without it, as EventLoopThread and AsyncLogger wait.
use shero.Common.{ℕ, ◌≡◌, ◌<◌, inl, inr, refl, true, none, some, arith}
use shero.Base.Mutex.{
  MutexLock, new_mutex, assign_holder, guard_begins, guard_ends, is_locked_by, Step, locks, assigns,
  Wait, gives_up, takes_again,
}
use shero.Base.Mutex.Holder.{IsTrue, Step-IsTrue}

-- Every wait stands between the two halves of a guard.
pub data Guarded : MutexLock → Type 0 where
  here : Guarded new_mutex
  moves : (m n : MutexLock) → Guarded m → Step m n → Guarded n
  begins : (t : ℕ) (m : MutexLock) → Guarded m → m.owner ≡ some t → Guarded (guard_begins m)
  waits : (m n : MutexLock) → Guarded m → m.holder ≡ 0 → Wait m n → Guarded n
  ends : (t : ℕ) (m : MutexLock) → Guarded m → m.owner ≡ some t → Guarded (guard_ends t m)

-- Waits stand alone.
pub data Plain : MutexLock → Type 0 where
  here : Plain new_mutex
  moves : (m n : MutexLock) → Plain m → Step m n → Plain n
  waits : (m n : MutexLock) → Plain m → Wait m n → Plain n

Wait-IsTrue : (m n : MutexLock) → Wait m n → m.holder ≡ 0 → IsTrue n
Wait-IsTrue m n (gives_up t own) z = inl z
Wait-IsTrue m n (takes_again t lt free) z = inl z

Guarded-IsTrue : (m : MutexLock) → Guarded m → IsTrue m
unfolding guard_begins guard_ends
Guarded-IsTrue m here = inl refl
Guarded-IsTrue m (moves k _ r step) = Step-IsTrue k m step (Guarded-IsTrue k r)
Guarded-IsTrue m (begins t k r own) = inl refl
Guarded-IsTrue m (waits k _ r z step) = Wait-IsTrue k m step z
Guarded-IsTrue m (ends t k r own) = inr own

-- Where every wait is under an `UnassignGuard`, a thread that `isLockedByThisThread` says has the mutex
-- has it.
pub Guarded-is_locked_by :
    (m : MutexLock) (t : ℕ) → Guarded m → 0 < t → is_locked_by t m ≡ true → m.owner ≡ some t
unfolding is_locked_by
Guarded-is_locked_by m t r lt h = elim (Guarded-IsTrue m r) [
  | inl z ↦ absurd (ground arith)
  | inr e ↦ ground (arith, e)
]

-- One thread after the other locks the mutex and waits.
abbrev taken : ℕ → MutexLock
taken t = record { owner = some t; holder = t }

abbrev given_up : ℕ → MutexLock
given_up t = record { owner = none; holder = t }

waits_after : (t : ℕ) (m : MutexLock) → 0 < t → m.owner ≡ none → Plain m → Plain (given_up t)
unfolding assign_holder
waits_after t m lt free r =
    waits (taken t) _ (moves _ _ (moves m _ r (locks t lt free)) (assigns t refl)) (gives_up t refl)

-- Without the guard any other thread may have it: where `u` waited, then `t`, and `u` came back, the
-- mutex is that of `u` and `isLockedByThisThread` is true in `t`.
pub Plain-is_locked_by :
    (t u : ℕ)
    → 0 < t
    → 0 < u
    → Plain (record { owner = some u; holder = t })
      × (is_locked_by t (record { owner = some u; holder = t }) ≡ true)
unfolding is_locked_by
Plain-is_locked_by t u lt lu = (
  waits (given_up t) _ (waits_after t (given_up u) lt refl (waits_after u new_mutex lu refl here))
      (takes_again u lu refl),
  ground arith,
)
