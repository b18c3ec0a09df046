-- ===== src/Base/Thread.antt =====
-- shero/base/Thread.h and Thread.cc: a thread and the one that starts and joins it, in the steps that can
-- interleave. `pthread_create`, `pthread_join` and the semaphore are as documented; the callback is any
-- code that ends, and `start` is not called again before `join`.
pub mod Started
use shero.Common.{ℕ, suc, Bool, true, false, Option, none, some}

-- The thread that calls `start` and `join`: between calls; in `sem_wait`; behind `start`; in
-- `pthread_join`.
pub data Caller : Type 0 where
  idle in_start started in_join : Caller

-- The new thread in `run`: there is none; before `m_start`; before `m_tid`; before `sem_post`; in the
-- callback; at its end.
pub data Runner : Type 0 where
  absent created marked identified calling ended : Runner

-- With `m_start`, `m_tid` where it was set, and the semaphore.
pub data Thread : Type 0 where
  thread : Caller → Runner → Bool → Option ℕ → ℕ → Thread

pub data Step : Thread → Thread → Type 0 where
  -- `start`
  creates :
      {b : Bool} {t : Option ℕ} {n : ℕ}
      → Step (thread idle absent b t n) (thread in_start created b t n)
  returns :
      {r : Runner} {b : Bool} {t : Option ℕ} {n : ℕ}
      → Step (thread in_start r b t (suc n)) (thread started r b t n)
  -- `run`
  marks :
      {c : Caller} {b : Bool} {t : Option ℕ} {n : ℕ}
      → Step (thread c created b t n) (thread c marked true t n)
  identifies :
      {c : Caller} {b : Bool} {t : Option ℕ} {n : ℕ} (tid : ℕ)
      → Step (thread c marked b t n) (thread c identified b (some tid) n)
  posts :
      {c : Caller} {b : Bool} {t : Option ℕ} {n : ℕ}
      → Step (thread c identified b t n) (thread c calling b t (suc n))
  ends :
      {c : Caller} {b : Bool} {t : Option ℕ} {n : ℕ}
      → Step (thread c calling b t n) (thread c ended b t n)
  -- `join`, which the destructor calls too
  joins :
      {r : Runner} {t : Option ℕ} {n : ℕ}
      → Step (thread started r true t n) (thread in_join r true t n)
  joins_none :
      {c : Caller} {r : Runner} {t : Option ℕ} {n : ℕ}
      → Step (thread c r false t n) (thread c r false t n)
  joined :
      {b : Bool} {t : Option ℕ} {n : ℕ}
      → Step (thread in_join ended b t n) (thread idle absent false t n)

-- The constructor.
abbrev pub new_thread : Thread
new_thread = thread idle absent false none 0

pub data Reach : Thread → Type 0 where
  here : Reach new_thread
  next : {s t : Thread} → Reach s → Step s t → Reach t
