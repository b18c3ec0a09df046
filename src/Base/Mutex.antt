-- ===== src/Base/Mutex.antt =====
-- shero/base/Mutex.h: a pthread mutex with the thread that holds it written down. `owner` is the
-- thread that has the pthread mutex, `holder` is `holder_`; threads are numbered from 1. A condition
-- variable is waited for by `pthread_cond_wait` on `getPthreadMutex()`, as EventLoopThread and
-- AsyncLogger do, which leaves `holder_` alone.
pub mod Holder
pub mod Waiting
use shero.Common.{ℕ, ◌≡◌, ◌≢◌, ◌<◌, Bool, Option, none, some, ◌==◌}

pub record MutexLock : Type 0 where
  pub owner : Option ℕ
  pub holder : ℕ

-- The constructor.
abbrev pub new_mutex : MutexLock
new_mutex = record { owner = none; holder = 0 }

-- `assignHolder` by thread `t`, and `unassignHolder`.
unfoldable pub assign_holder : ℕ → MutexLock → MutexLock
assign_holder t m = record m { holder = t }

unfoldable pub unassign_holder : MutexLock → MutexLock
unassign_holder m = record m { holder = 0 }

-- `UnassignGuard` around what a thread `t` does: its constructor and its destructor.
unfoldable pub guard_begins : MutexLock → MutexLock
unfolding unassign_holder
guard_begins m = unassign_holder m

unfoldable pub guard_ends : ℕ → MutexLock → MutexLock
unfolding assign_holder
guard_ends t m = assign_holder t m

-- `isLockedByThisThread`.
unfoldable pub is_locked_by : ℕ → MutexLock → Bool
is_locked_by t m = m.holder == t

-- What thread `t` can do: the halves of `lock` and of `unlock`, and the halves of a wait.
pub data Step (m : MutexLock) : MutexLock → Type 0 where
  locks : (t : ℕ) → 0 < t → m.owner ≡ none → Step m (record m { owner = some t })
  assigns : (t : ℕ) → m.owner ≡ some t → Step m (assign_holder t m)
  unassigns : (t : ℕ) → m.owner ≡ some t → Step m (unassign_holder m)
  unlocks : (t : ℕ) → m.owner ≡ some t → m.holder ≡ 0 → Step m (record m { owner = none })

-- A wait gives the mutex up and takes it again, with the holder as it stands.
pub data Wait (m : MutexLock) : MutexLock → Type 0 where
  gives_up : (t : ℕ) → m.owner ≡ some t → Wait m (record m { owner = none })
  takes_again : (t : ℕ) → 0 < t → m.owner ≡ none → Wait m (record m { owner = some t })
