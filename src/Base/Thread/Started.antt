-- ===== src/Base/Thread/Started.antt =====
-- What `start` and `join` promise.
use shero.Common.{arith, ℕ, suc, ◌≡◌, refl, Bool, true, false, Option, none, some}
use shero.Base.Thread.{
  Caller, idle, in_start, started, in_join, Runner, absent, created, marked, identified, calling,
  ended, Thread, thread, Step, Reach, here, next,
}

abbrev pub IsKnown : Option ℕ → Type 0
IsKnown none = ⊥
IsKnown (some tid) = Unit

-- Which states go together: the runner behind its post has set `m_start` and `m_tid`, the semaphore
-- counts the post that `start` waits for, and between calls there is no thread and no `m_start`.
abbrev pub Fits : Caller → Runner → Bool → Option ℕ → ℕ → Type 0
Fits idle absent b t n = (b ≡ false) × (n ≡ 0)
Fits in_start created b t n = (b ≡ false) × (n ≡ 0)
Fits in_start marked b t n = (b ≡ true) × (n ≡ 0)
Fits in_start identified b t n = (b ≡ true) × IsKnown t × (n ≡ 0)
Fits in_start calling b t n = (b ≡ true) × IsKnown t × (n ≡ 1)
Fits in_start ended b t n = (b ≡ true) × IsKnown t × (n ≡ 1)
Fits started calling b t n = (b ≡ true) × IsKnown t × (n ≡ 0)
Fits started ended b t n = (b ≡ true) × IsKnown t × (n ≡ 0)
Fits in_join calling b t n = (b ≡ true) × IsKnown t × (n ≡ 0)
Fits in_join ended b t n = (b ≡ true) × IsKnown t × (n ≡ 0)
Fits c r b t n = ⊥

abbrev pub InStep : Thread → Type 0
InStep (thread c r b t n) = Fits c r b t n

returns-Fits :
    (r : Runner) (b : Bool) (t : Option ℕ) (n : ℕ)
    → Fits in_start r b t (suc n)
    → Fits started r b t n
returns-Fits calling b t n (s, k, e) = (s, k, omega arith)
returns-Fits ended b t n (s, k, e) = (s, k, omega arith)
returns-Fits absent b t n h = h
returns-Fits created b t n h = absurd (omega (arith, h.1))
returns-Fits marked b t n h = absurd (omega (arith, h.1))
returns-Fits identified b t n h = absurd (omega (arith, h.2))

posts-Fits :
    (c : Caller) (b : Bool) (t : Option ℕ) (n : ℕ)
    → Fits c identified b t n
    → Fits c calling b t (suc n)
posts-Fits in_start b t n (s, k, e) = (s, k, omega arith)
posts-Fits idle b t n h = h
posts-Fits started b t n h = absurd h
posts-Fits in_join b t n h = absurd h

marks-Fits :
    (c : Caller) (b : Bool) (t : Option ℕ) (n : ℕ) → Fits c created b t n → Fits c marked true t n
marks-Fits in_start b t n h = (refl, h.1)
marks-Fits idle b t n h = h
marks-Fits started b t n h = h
marks-Fits in_join b t n h = h

identifies-Fits :
    (c : Caller) (b : Bool) (t : Option ℕ) (n tid : ℕ)
    → Fits c marked b t n
    → Fits c identified b (some tid) n
identifies-Fits in_start b t n tid h = (h.0, tt, h.1)
identifies-Fits idle b t n tid h = h
identifies-Fits started b t n tid h = h
identifies-Fits in_join b t n tid h = h

ends-Fits :
    (c : Caller) (b : Bool) (t : Option ℕ) (n : ℕ) → Fits c calling b t n → Fits c ended b t n
ends-Fits in_start b t n h = h
ends-Fits idle b t n h = absurd h
ends-Fits started b t n h = h
ends-Fits in_join b t n h = h

joins-Fits : (r : Runner) (t : Option ℕ) (n : ℕ) → Fits started r true t n → Fits in_join r true t n
joins-Fits calling t n h = h
joins-Fits ended t n h = h
joins-Fits absent t n h = h
joins-Fits created t n h = h
joins-Fits marked t n h = h
joins-Fits identified t n h = h

Step-InStep : {s t : Thread} → Step s t → InStep s → InStep t
Step-InStep Step.creates h = h
Step-InStep (Step.returns {r} {b} {t} {n}) h = returns-Fits r b t n h
Step-InStep (Step.marks {c} {b} {t} {n}) h = marks-Fits c b t n h
Step-InStep (Step.identifies {c} {b} {t} {n} tid) h = identifies-Fits c b t n tid h
Step-InStep (Step.posts {c} {b} {t} {n}) h = posts-Fits c b t n h
Step-InStep (Step.ends {c} {b} {t} {n}) h = ends-Fits c b t n h
Step-InStep (Step.joins {r} {t} {n}) h = joins-Fits r t n h
Step-InStep Step.joins_none h = h
Step-InStep Step.joined (s, k, e) = (refl, e)

-- In every state that one thread which starts and joins another reaches with it: behind `start` the new
-- thread has set `m_start` and its id and is in its callback or at its end, with no post left over; and
-- between calls, also behind `join`, no thread is left, `m_start` is false and the semaphore is 0.
pub Reach-InStep : {s : Thread} → Reach s → InStep s
Reach-InStep here = (refl, refl)
Reach-InStep (next r st) = Step-InStep st (Reach-InStep r)
