-- ===== src/Net/EventLoop/Launch.antt =====
-- shero/net/EventLoopThread.cc: `startLoop` waits until the new thread has made its loop. `L` stands for
-- a pointer to an EventLoop. What holds the mutex from its test to `pthread_cond_wait` is one step.
use shero.Common.{◌≡◌, ◌⊎◌, Bool, true, false, Option, none, some}

-- Where the caller is in `startLoop`, and the new thread in `threadFunc`: before the loop is published,
-- in `loop()`, behind it.
pub data Caller {ℓ} (L : Type ℓ) : Type ℓ where
  testing : Caller L
  waiting : Caller L
  returned : L → Caller L

pub data Worker : Type 0 where
  preparing looping finished : Worker

-- `published` is `m_loop`; `called` says that the callback has run.
pub record Launch {ℓ} (L : Type ℓ) : Type ℓ where
  pub published : Option L
  pub caller : Caller L
  pub worker : Worker
  pub called : Bool

module _ {ℓ} {L : Type ℓ} where
  -- The constructor, and `m_thread.start()`.
  abbrev pub launched : Launch L
  launched = record { published = none; caller = testing; worker = preparing; called = false }

  -- `pthread_cond_signal`.
  unfoldable pub wake : Caller L → Caller L
  wake testing = testing
  wake waiting = testing
  wake (returned l) = returned l

  -- The steps, for the loop `loop` of the new thread.
  pub data Step (loop : L) (s : Launch L) : Launch L → Type ℓ where
    calls : s.worker ≡ preparing → s.called ≡ false → Step loop s (record s { called = true })
    publishes :
        s.worker ≡ preparing
        → s.called ≡ true
        → Step loop s (record s { published = some loop; worker = looping; caller = wake s.caller })
    ends : s.worker ≡ looping → Step loop s (record s { published = none; worker = finished })
    waits : s.caller ≡ testing → s.published ≡ none → Step loop s (record s { caller = waiting })
    wakes : s.caller ≡ waiting → Step loop s (record s { caller = testing })
    returns :
        (l : L)
        → s.caller ≡ testing
        → s.published ≡ some l
        → Step loop s (record s { caller = returned l })

  pub data Reach (loop : L) : Launch L → Type ℓ where
    here : Reach loop launched
    more : (s t : Launch L) → Reach loop s → Step loop s t → Reach loop t

  -- What `startLoop` returns is the loop of its thread, whose callback has run; and while the caller
  -- waits, that loop is not there to be returned.
  pub record IsFaithful (loop : L) (s : Launch L) : Type ℓ where
    pub shown : (s.published ≡ none) ⊎ ((s.published ≡ some loop) × (s.called ≡ true))
    pub result : (l : L) → s.caller ≡ returned l → (l ≡ loop) × (s.called ≡ true)
    pub asleep : s.caller ≡ waiting → s.published ≡ none
    pub fresh : s.worker ≡ preparing → s.published ≡ none
