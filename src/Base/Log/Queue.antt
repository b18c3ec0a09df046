-- ===== src/Base/Log/Queue.antt =====
-- The queue between the threads that log and the logger's thread, shero/base/Log.cc: `push`, `stop` and
-- the waiting of `mainLoop`, as steps in any order. `push` and `stop` signal without the mutex, so the
-- signal is a step of its own; and `pthread_cond_wait` may return without one. `B` stands for a batch of
-- messages.
use shero.Common.{
  ℕ, suc, arith, subst, ◌⊎◌, inl, inr, ◌≡◌, ◌≢◌, refl, ap, sym, ◌∙◌, Bool, true, false, List, [],
  ◌∷◌, ◌++◌, append_assoc,
}

-- Where `mainLoop` is: before its test of the queue; behind a test that found it empty and no stop,
-- still with the mutex; in `pthread_cond_wait`; with a batch at hand; behind the loop.
pub data Phase {ℓ} (B : Type ℓ) : Type ℓ where
  checking : Phase B
  tested : Phase B
  waiting : Phase B
  writing : B → Phase B
  exited : Phase B

pub record State {ℓ} (B : Type ℓ) : Type ℓ where
  pub phase : Phase B
  pub stopped : Bool  -- `m_stop`
  pub signals : ℕ  -- threads that are to call `pthread_cond_signal`
  pub queue : List B
  pub pushed : List B  -- by all threads, in order
  pub written : List B  -- by the logger's thread, in order

module _ {ℓ} {B : Type ℓ} where
  -- Behind the constructor, which waits for the thread to have started.
  abbrev pub initial : State B
  initial = record {
    phase = checking;
    stopped = false;
    signals = 0;
    queue = [];
    pushed = [];
    written = [];
  }

  -- `pthread_cond_signal`: it wakes the thread where that waits.
  unfoldable pub signal : Phase B → Phase B
  signal waiting = checking
  signal checking = checking
  signal tested = tested
  signal (writing b) = writing b
  signal exited = exited

  -- `push` up to its signal, and whole.
  unfoldable pub enqueue : B → State B → State B
  enqueue b s = record s {
    signals = suc s.signals;
    queue = s.queue ++ (b ∷ []);
    pushed = s.pushed ++ (b ∷ []);
  }

  unfoldable pub push : B → State B → State B
  unfolding signal
  push b s = record s {
    phase = signal s.phase;
    queue = s.queue ++ (b ∷ []);
    pushed = s.pushed ++ (b ∷ []);
  }

  -- `stop` up to its signal: it takes no mutex.
  unfoldable pub request_stop : State B → State B
  request_stop s = record s { stopped = true; signals = suc s.signals }

  -- The mutex that `push` takes is free unless the thread has tested and does not wait yet.
  pub data Step (s : State B) : State B → Type ℓ where
    pushes : (b : B) → s.phase ≢ tested → Step s (enqueue b s)
    stops : s.stopped ≡ false → Step s (request_stop s)
    signals :
        (n : ℕ) → s.signals ≡ suc n → Step s (record s { phase = signal s.phase; signals = n })
    wakes : s.phase ≡ waiting → Step s (record s { phase = checking })
    finds_none :
        s.phase ≡ checking → s.queue ≡ [] → s.stopped ≡ false → Step s (record s { phase = tested })
    waits : s.phase ≡ tested → Step s (record s { phase = waiting })
    pops :
        (b : B) (rest : List B)
        → s.phase ≡ checking
        → s.queue ≡ b ∷ rest
        → Step s (record s { phase = writing b; queue = rest })
    writes :
        (b : B)
        → s.phase ≡ writing b
        → Step s (record s { phase = checking; written = s.written ++ (b ∷ []) })
    exits :
        s.phase ≡ checking → s.queue ≡ [] → s.stopped ≡ true → Step s (record s { phase = exited })

  pub data Reach (start : State B) : State B → Type ℓ where
    here : Reach start start
    more : (s t : State B) → Reach start s → Step s t → Reach start t

  -- The batch at hand.
  abbrev pub held : Phase B → List B
  held checking = []
  held tested = []
  held waiting = []
  held (writing b) = b ∷ []
  held exited = []

  held-signal : (p : Phase B) → held (signal p) ≡ held p
  unfolding signal
  held-signal checking = refl
  held-signal tested = refl
  held-signal waiting = refl
  held-signal (writing b) = refl
  held-signal exited = refl

  -- What was pushed, in that order, is what was written, the batch at hand and the queue.
  abbrev pub IsKept : State B → Type ℓ
  IsKept s = s.written ++ (held s.phase ++ s.queue) ≡ s.pushed

  -- The invariant at a phase that is known.
  IsKept-at :
      (s : State B) (p : Phase B)
      → s.phase ≡ p
      → IsKept s
      → s.written ++ (held p ++ s.queue) ≡ s.pushed
  IsKept-at s p h inv = ap (λ q. s.written ++ (held q ++ s.queue)) (sym h) ∙ inv

  signal-IsKept :
      (s : State B) → IsKept s → s.written ++ (held (signal s.phase) ++ s.queue) ≡ s.pushed
  signal-IsKept s inv = ap (λ q. s.written ++ (q ++ s.queue)) (held-signal s.phase) ∙ inv

  Step-IsKept : (s t : State B) → Step s t → IsKept s → IsKept t
  unfolding enqueue request_stop
  Step-IsKept s t (pushes b h) inv =
      ap (λ q. s.written ++ q) (sym (append_assoc (held s.phase) s.queue (b ∷ [])))
      ∙ sym (append_assoc s.written (held s.phase ++ s.queue) (b ∷ []))
      ∙ ap (λ q. q ++ (b ∷ [])) inv
  Step-IsKept s t (stops h) inv = inv
  Step-IsKept s t (signals n e) inv = signal-IsKept s inv
  Step-IsKept s t (wakes hp) inv = IsKept-at s waiting hp inv
  Step-IsKept s t (finds_none hp hq hs) inv = IsKept-at s checking hp inv
  Step-IsKept s t (waits hp) inv = IsKept-at s tested hp inv
  Step-IsKept s t (pops b rest hp hq) inv =
      ap (λ q. s.written ++ q) (sym hq) ∙ IsKept-at s checking hp inv
  Step-IsKept s t (writes b hp) inv =
      append_assoc s.written (b ∷ []) s.queue ∙ IsKept-at s (writing b) hp inv
  Step-IsKept s t (exits hp hq hs) inv = IsKept-at s checking hp inv

  -- In whatever order the threads move, nothing that was pushed is lost, doubled or reordered: what was
  -- written, the batch at hand and the queue are together what was pushed.
  pub Reach-IsKept : (t : State B) → Reach initial t → IsKept t
  Reach-IsKept t here = refl
  Reach-IsKept t (more s _ r step) = Step-IsKept s t step (Reach-IsKept s r)

  -- After a stop, with its signal, between the test and the wait.
  unfoldable pub stopped_too_early : State B → State B
  stopped_too_early s = record s { phase = waiting; stopped = true }

  stop_is_lost :
      (s : State B)
      → s.phase ≡ tested
      → s.stopped ≡ false
      → s.signals ≡ 0
      → Reach s (stopped_too_early s)
  unfolding stopped_too_early request_stop
  stop_is_lost s hp hs hn =
      let still : signal s.phase ≡ tested = ap signal hp ∙ unfold signal in refl in
      let asked : State B = request_stop s in
      let signalled : State B = record asked { phase = signal s.phase; signals = 0 } in
      let lost : record signalled { phase = waiting } ≡ stopped_too_early s =
        let at : ℕ → State B = λ n. record s { phase = waiting; stopped = true; signals = n } in
        ap at (sym hn) in
      subst (Reach s) lost (
        more signalled (record signalled { phase = waiting })
          (more asked signalled (more s asked here (stops hs)) (signals 0 (ap suc hn)))
          (waits still))

  only_push :
      (s u : State B)
      → s.signals ≡ 0
      → Step (stopped_too_early s) u
      → ((b : B) × (u ≡ enqueue b (stopped_too_early s)))
        ⊎ (u ≡ record (stopped_too_early s) { phase = checking })
  unfolding stopped_too_early
  only_push s u hn (pushes b h) = inl (b, refl)
  only_push s u hn (stops h) = cc
  only_push s u hn (signals n e) = absurd (omega (arith, hn, e))
  only_push s u hn (wakes p) = inr refl
  only_push s u hn (finds_none p q r) = cc
  only_push s u hn (waits p) = cc
  only_push s u hn (pops b rest p q) = cc
  only_push s u hn (writes b p) = cc
  only_push s u hn (exits p q r) = cc

  -- Where `stop` with its signal comes between the thread's test and its wait, and no other thread is to
  -- signal, the signal is lost: the thread waits, although it is to stop, and nothing but another push or
  -- a wakeup without a signal is left.
  pub stopped_too_early_lem :
      (s u : State B)
      → s.phase ≡ tested
      → s.stopped ≡ false
      → s.signals ≡ 0
      → Step (stopped_too_early s) u
      → Reach s (stopped_too_early s)
        × (((b : B) × (u ≡ enqueue b (stopped_too_early s)))
            ⊎ (u ≡ record (stopped_too_early s) { phase = checking }))
  stopped_too_early_lem s u hp hs hn step = (stop_is_lost s hp hs hn, only_push s u hn step)
