-- ===== src/Net/EventLoop/Threads.antt =====
-- The loop's thread among others that queue functions: `EventLoop::loop` of shero/net/EventLoop.cc in
-- the steps that can interleave, and what holds in every state that they reach.
pub mod Progress
use shero.Common.{
  ℕ, zero, suc, ◌+◌, ◌<◌, ◌≤◌, ◌≡◌, ◌≢◌, refl, sym, ap, ◌∙◌, ◌⊎◌, inl, inr, Bool, true, false, not,
  ◌&&◌, ◌||◌, List, [], ◌∷◌, ◌++◌, append-nil, append_assoc, if◌then◌else◌, length, arith,
}
use shero.Net.EventLoop.{
  EventLoop, new_loop, wakeup, handle_read, push, queue_in_loop, queue_all, quit, call, call_all,
  do_pending_functors,
}

-- Where the loop's thread is in `loop()`: in `epoll_wait`, in the event handlers, in
-- `doPendingFunctors`, or behind the loop.
pub data Phase : Type 0 where
  polling handling calling left_loop : Phase

abbrev pub is_calling : Phase → Bool
is_calling calling = true
is_calling _ = false

-- `while(m_looping)`.
abbrev pub next_round : Bool → Phase
next_round looping = if looping then polling else left_loop

-- `batch` are the functions swapped out and not yet run, `in_flight` the number of other threads
-- between their push, or what `quit` sets, and their wakeup, and `queued` everything queued so far, in order.
pub record System {ℓ} (F : Type ℓ) : Type ℓ where
  pub loop : EventLoop F
  pub phase : Phase
  pub batch : List F
  pub in_flight : ℕ
  pub queued : List F

module _ {ℓ} {F : Type ℓ} (body : F → List F) where
  -- A step of another thread, or of the loop's own.
  pub data Step (s : System F) : System F → Type ℓ where
    other_push :
        (f : F)
        → Step s (record s {
          loop = push f s.loop;
          in_flight = suc s.in_flight;
          queued = s.queued ++ (f ∷ []);
        })
    other_wakeup :
        (n : ℕ) → s.in_flight ≡ suc n → Step s (record s { loop = wakeup s.loop; in_flight = n })
    other_quit : Step s (record s { loop = quit true s.loop; in_flight = suc s.in_flight })
    own_quit :
        (s.phase ≡ handling) ⊎ (s.phase ≡ calling) → Step s (record s { loop = quit true s.loop })
    woken : s.phase ≡ polling → 0 < s.loop.wakeups → Step s (record s { phase = handling })
    ready : s.phase ≡ polling → Step s (record s { phase = handling })
    own_read : s.phase ≡ handling → Step s (record s { loop = handle_read s.loop })
    own_queue :
        (f : F)
        → s.phase ≡ handling
        → Step s (record s { loop = queue_in_loop true f s.loop; queued = s.queued ++ (f ∷ []) })
    swap :
        s.phase ≡ handling
        → Step s (record s {
          loop = record s.loop { calling = true; pending = [] };
          phase = calling;
          batch = s.loop.pending;
        })
    call_next :
        (f : F) (fs : List F)
        → s.phase ≡ calling
        → s.batch ≡ f ∷ fs
        → Step s (record s { loop = call body f s.loop; batch = fs; queued = s.queued ++ body f })
    finish :
        s.phase ≡ calling
        → s.batch ≡ []
        → Step s (record s {
          loop = record s.loop { calling = false };
          phase = next_round s.loop.looping;
        })

  pub data Reach (s : System F) : System F → Type ℓ where
    here : Reach s s
    next : {t u : System F} → Reach s t → Step t u → Reach s u

-- The start of `loop()`: nothing queued.
abbrev pub start {ℓ} : {F : Type ℓ} → System F
start = record {
  loop = record { looping = true; pending = []; calling = false; wakeups = 0; ran = [] };
  phase = polling;
  batch = [];
  in_flight = 0;
  queued = [];
}

module _ {ℓ} {F : Type ℓ} where
  -- What is queued was run, or is about to be, in this order; and while the thread is not in the
  -- event handlers, a function that waits has a wakeup that is written or on its way.
  pub record IsSound (s : System F) : Type ℓ where
    pub order : s.loop.ran ++ (s.batch ++ s.loop.pending) ≡ s.queued
    pub flag : s.loop.calling ≡ is_calling s.phase
    pub woken_up : (s.phase ≡ handling) ⊎ (s.loop.pending ≡ []) ⊎ (0 < s.loop.wakeups + s.in_flight)
    pub batched : (s.phase ≡ calling) ⊎ (s.batch ≡ [])

  start-IsSound : IsSound (start {F = F})
  start-IsSound = record {
    order = refl;
    flag = refl;
    woken_up = inr (inl refl);
    batched = inr refl;
  }

  queue_in_loop_quiet :
      (f : F) (l : EventLoop F) → l.calling ≡ false → queue_in_loop true f l ≡ push f l
  unfolding queue_in_loop
  queue_in_loop_quiet f l e = ap (λ b. if b then wakeup (push f l) else push f l) e

  queue_in_loop_calling :
      (f : F) (l : EventLoop F) → l.calling ≡ true → queue_in_loop true f l ≡ wakeup (push f l)
  unfolding queue_in_loop
  queue_in_loop_calling f l e = ap (λ b. if b then wakeup (push f l) else push f l) e

  -- In `doPendingFunctors` each function queued writes to the eventfd.
  pub queue_all_calling :
      (fs : List F) (l : EventLoop F)
      → l.calling ≡ true
      → queue_all fs l ≡ record l { pending = l.pending ++ fs; wakeups = l.wakeups + length fs }
  unfolding queue_all push wakeup
  queue_all_calling [] l e =
      ap (λ p. record l { pending = p }) (sym (append-nil l.pending))
      ∙ ap (λ (w : ℕ). record l { pending = l.pending ++ []; wakeups = w })
          (let h : l.wakeups ≡ l.wakeups + 0 = omega arith in h)
  queue_all_calling (f ∷ fs) l e =
      ap (queue_all fs) (queue_in_loop_calling f l e)
      ∙ queue_all_calling fs (wakeup (push f l)) e
      ∙ ap (λ p. record l { pending = p; wakeups = l.wakeups + 1 + length fs })
          (append_assoc l.pending (f ∷ []) fs)
      ∙ ap (λ (w : ℕ). record l { pending = l.pending ++ (f ∷ fs); wakeups = w })
          (let h : l.wakeups + 1 + length fs ≡ l.wakeups + suc (length fs) = omega arith in h)

  snoc_order :
      (ran batch pending queued fs : List F)
      → ran ++ (batch ++ pending) ≡ queued
      → ran ++ (batch ++ (pending ++ fs)) ≡ queued ++ fs
  snoc_order ran batch pending queued fs e =
      ap (λ t. ran ++ t) (sym (append_assoc batch pending fs))
      ∙ sym (append_assoc ran (batch ++ pending) fs)
      ∙ ap (λ t. t ++ fs) e

  no_batch : {s : System F} (p : Phase) → s.phase ≡ p → p ≢ calling → IsSound s → s.batch ≡ []
  no_batch {s} p e other v = elim v.batched [ inl h ↦ absurd (other (sym e ∙ h)) | inr h ↦ h ]

  pub not_handling :
      {s : System F} (p : Phase)
      → s.phase ≡ p
      → p ≢ handling
      → IsSound s
      → (s.loop.pending ≡ []) ⊎ (0 < s.loop.wakeups + s.in_flight)
  not_handling {s} p e other v = elim v.woken_up [ inl h ↦ absurd (other (sym e ∙ h)) | inr h ↦ h ]

  queued_woken :
      {s : System F} (fs : List F)
      → s.phase ≡ calling
      → IsSound s
      → (s.phase ≡ handling)
        ⊎ (s.loop.pending ++ fs ≡ [])
        ⊎ (0 < s.loop.wakeups + length fs + s.in_flight)
  queued_woken {s} [] e v = elim (not_handling calling e (λ q. cc) v) [
    | inl h ↦ inr (inl (append-nil s.loop.pending ∙ h))
    | inr h ↦ inr (inr (omega arith))
  ]
  queued_woken (f ∷ fs) e v = inr (inr (omega arith))

is_calling-next_round : (looping : Bool) → is_calling (next_round looping) ≡ false
is_calling-next_round true = refl
is_calling-next_round false = refl

module _ {ℓ} {F : Type ℓ} (body : F → List F) where
  Step-IsSound : {s t : System F} → Step body s t → IsSound s → IsSound t
  unfolding push wakeup handle_read call quit
  Step-IsSound {s = s} (other_push f) v = record {
    order = snoc_order s.loop.ran s.batch s.loop.pending s.queued (f ∷ []) v.order;
    flag = v.flag;
    woken_up = inr (inr (omega arith));
    batched = v.batched;
  }
  Step-IsSound {s = s} (other_wakeup n e) v = record {
    order = v.order;
    flag = v.flag;
    woken_up = inr (inr (omega arith));
    batched = v.batched;
  }
  Step-IsSound {s = s} other_quit v = record {
    order = v.order;
    flag = v.flag;
    woken_up = inr (inr (omega arith));
    batched = v.batched;
  }
  Step-IsSound {s = s} (own_quit e) v = record {
    order = v.order;
    flag = v.flag;
    woken_up = v.woken_up;
    batched = v.batched;
  }
  Step-IsSound {s = s} (woken e h) v = record {
    order = v.order;
    flag = v.flag ∙ ap is_calling e;
    woken_up = inl refl;
    batched = inr (no_batch polling e (λ q. cc) v);
  }
  Step-IsSound {s = s} (ready e) v = record {
    order = v.order;
    flag = v.flag ∙ ap is_calling e;
    woken_up = inl refl;
    batched = inr (no_batch polling e (λ q. cc) v);
  }
  Step-IsSound {s = s} (own_read e) v = record {
    order = v.order;
    flag = v.flag;
    woken_up = inl e;
    batched = v.batched;
  }
  Step-IsSound {s = s} (own_queue f e) v =
      rw (queue_in_loop_quiet f s.loop (v.flag ∙ ap is_calling e)) (record {
        order = snoc_order s.loop.ran s.batch s.loop.pending s.queued (f ∷ []) v.order;
        flag = v.flag;
        woken_up = inl e;
        batched = v.batched;
      })
  Step-IsSound {s = s} (swap e) v = record {
    order =
        ap (λ t. s.loop.ran ++ t) (append-nil s.loop.pending)
        ∙ ap (λ b. s.loop.ran ++ (b ++ s.loop.pending)) (sym (no_batch handling e (λ q. cc) v))
        ∙ v.order;
    flag = refl;
    woken_up = inr (inl refl);
    batched = inl refl;
  }
  Step-IsSound {s = s} (call_next f fs e b) v =
      rw
        (queue_all_calling (body f) (record s.loop { ran = s.loop.ran ++ (f ∷ []) })
          (v.flag ∙ ap is_calling e))
        (record {
          order =
              append_assoc s.loop.ran (f ∷ []) (fs ++ (s.loop.pending ++ body f))
              ∙ snoc_order s.loop.ran (f ∷ fs) s.loop.pending s.queued (body f)
                  (ap (λ t. s.loop.ran ++ (t ++ s.loop.pending)) (sym b) ∙ v.order);
          flag = v.flag;
          woken_up = queued_woken (body f) e v;
          batched = inl e;
        })
  Step-IsSound {s = s} (finish e b) v = record {
    order = v.order;
    flag = sym (is_calling-next_round s.loop.looping);
    woken_up = inr (not_handling calling e (λ q. cc) v);
    batched = inr b;
  }

  -- In every state that the threads reach, `quit` among their steps, what was run, what is swapped out and what is pending are
  -- together what was queued, in this order; and unless the loop's thread is in the event handlers, a
  -- pending function has a wakeup that is written or still to be written by the thread that queued.
  pub Reach-IsSound : {t : System F} → Reach body start t → IsSound t
  Reach-IsSound here = start-IsSound
  Reach-IsSound (next r st) = Step-IsSound st (Reach-IsSound r)
