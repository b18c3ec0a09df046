-- ===== src/Base/Mutex/Holder.antt =====
-- What `holder_` of shero/base/Mutex.h tells, without waits and with them.
use shero.Common.{ℕ, ◌≡◌, ◌<◌, ◌⊎◌, inl, inr, refl, true, some, arith}
use shero.Base.Mutex.{
  MutexLock, new_mutex, assign_holder, unassign_holder, is_locked_by, Step, locks, assigns,
  unassigns, unlocks,
}

pub data Reach : MutexLock → Type 0 where
  here : Reach new_mutex
  more : (m n : MutexLock) → Reach m → Step m n → Reach n

-- Nobody is written down, or the owner is.
abbrev pub IsTrue : MutexLock → Type 0
IsTrue m = (m.holder ≡ 0) ⊎ (m.owner ≡ some m.holder)

pub Step-IsTrue : (m n : MutexLock) → Step m n → IsTrue m → IsTrue n
unfolding assign_holder unassign_holder
Step-IsTrue m n (locks t lt free) (inl z) = inl z
Step-IsTrue m n (locks t lt free) (inr e) = cc
Step-IsTrue m n (assigns t own) h = inr own
Step-IsTrue m n (unassigns t own) h = inl refl
Step-IsTrue m n (unlocks t own z) h = inl z

Reach-IsTrue : (m : MutexLock) → Reach m → IsTrue m
Reach-IsTrue m here = inl refl
Reach-IsTrue m (more k _ r step) = Step-IsTrue k m step (Reach-IsTrue k r)

-- As long as nobody waits, a thread that `isLockedByThisThread` says has the mutex has it.
pub Reach-is_locked_by :
    (m : MutexLock) (t : ℕ) → Reach m → 0 < t → is_locked_by t m ≡ true → m.owner ≡ some t
unfolding is_locked_by
Reach-is_locked_by m t r lt h = elim (Reach-IsTrue m r) [
  | inl z ↦ absurd (ground arith)
  | inr e ↦ ground (arith, e)
]
