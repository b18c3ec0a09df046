-- ===== src/Net/EventLoop/Threads/Progress.antt =====
-- The loop's thread gets to every function that waits, and nothing can keep it in `epoll_wait`.
use shero.Common.{
  ◌<◌, ◌≡◌, ◌≢◌, refl, sym, ap, ◌∙◌, inl, inr, true, false, List, [], ◌∷◌, ◌++◌, append-nil,
  append_assoc, arith,
}
use shero.Net.EventLoop.{EventLoop, handle_read, call, call_all, do_pending_functors}
use shero.Net.EventLoop.Threads.{
  next_round, polling, calling, System, woken, own_read, swap, call_next, finish, Reach, here, next,
  start, Reach-IsSound, queue_all_calling, not_handling,
}

module _ {ℓ} {F : Type ℓ} (body : F → List F) where
  Reach-trans : {s t u : System F} → Reach body s t → Reach body t u → Reach body s u
  Reach-trans r here = r
  Reach-trans r (next q st) = next (Reach-trans r q) st

  call-calling : (f : F) (l : EventLoop F) → l.calling ≡ true → (call body f l).calling ≡ true
  unfolding call
  call-calling f l e = rw (queue_all_calling (body f) (record l { ran = l.ran ++ (f ∷ []) }) e) e

  call-looping : (f : F) (l : EventLoop F) → l.calling ≡ true → (call body f l).looping ≡ l.looping
  unfolding call
  call-looping f l e = rw (queue_all_calling (body f) (record l { ran = l.ran ++ (f ∷ []) }) e) refl

  call_all-looping :
      (fs : List F) (l : EventLoop F) → l.calling ≡ true → (call_all body fs l).looping ≡ l.looping
  unfolding call_all
  call_all-looping [] l e = refl
  call_all-looping (f ∷ fs) l e =
      call_all-looping fs (call body f l) (call-calling f l e) ∙ call-looping f l e

  call-ran : (f : F) (l : EventLoop F) → l.calling ≡ true → (call body f l).ran ≡ l.ran ++ (f ∷ [])
  unfolding call
  call-ran f l e = rw (queue_all_calling (body f) (record l { ran = l.ran ++ (f ∷ []) }) e) refl

  call_all-ran :
      (fs : List F) (l : EventLoop F) → l.calling ≡ true → (call_all body fs l).ran ≡ l.ran ++ fs
  unfolding call_all
  call_all-ran [] l e = sym (append-nil l.ran)
  call_all-ran (f ∷ fs) l e =
      call_all-ran fs (call body f l) (call-calling f l e)
      ∙ ap (λ t. t ++ fs) (call-ran f l e)
      ∙ append_assoc l.ran (f ∷ []) fs

  -- `doPendingFunctors` runs exactly what was pending, in order; what these functions queue waits for
  -- the next round.
  pub do_pending_functors-ran :
      (l : EventLoop F) → (do_pending_functors body l).ran ≡ l.ran ++ l.pending
  unfolding do_pending_functors
  do_pending_functors-ran l =
      call_all-ran l.pending (record l { calling = true; pending = [] }) refl

  -- The loop's thread has run the whole batch.
  record Called (fs : List F) (s : System F) : Type ℓ where
    last : System F
    reach : Reach body s last
    phase : last.phase ≡ calling
    batch : last.batch ≡ []
    loop : last.loop ≡ call_all body fs s.loop

  calls : (fs : List F) (s : System F) → s.phase ≡ calling → s.batch ≡ fs → Called fs s
  unfolding call_all
  calls [] s e b = record { last = s; reach = here; phase = e; batch = b; loop = refl }
  calls (f ∷ fs) s e b =
      let rest =
        calls fs (record s { loop = call body f s.loop; batch = fs; queued = s.queued ++ body f }) e
          refl in
      record {
        last = rest.last;
        reach = Reach-trans (next here (call_next f fs e b)) rest.reach;
        phase = rest.phase;
        batch = rest.batch;
        loop = rest.loop;
      }

  -- One `doPendingFunctors` later the loop's thread is back in `epoll_wait`, or where `quit` was called
  -- before, behind the loop.
  pub record Drains (s : System F) : Type ℓ where
    pub last : System F
    pub reach : Reach body s last
    pub back : last.phase ≡ next_round s.loop.looping
    pub loop : last.loop ≡ do_pending_functors body (handle_read s.loop)
    pub ran : last.loop.ran ≡ s.loop.ran ++ s.loop.pending

  one_round : (s : System F) → s.phase ≡ polling → 0 < s.loop.wakeups → Drains s
  unfolding do_pending_functors handle_read
  one_round s e h =
      let c =
        calls s.loop.pending
          (record s {
            loop = record s.loop { wakeups = 0; calling = true; pending = [] };
            phase = calling;
            batch = s.loop.pending;
          })
          refl refl in
      let l : record c.last.loop { calling = false }
          ≡ do_pending_functors body (handle_read s.loop) =
        let stop : EventLoop F → EventLoop F = λ l. record l { calling = false } in
        ap stop c.loop in
      record {
        last = record c.last {
          loop = record c.last.loop { calling = false };
          phase = next_round c.last.loop.looping;
        };
        reach =
            next
              (Reach-trans (next (next (next here (woken e h)) (own_read refl)) (swap refl))
                c.reach)
              (finish c.phase c.batch);
        back =
            ap (λ l. next_round l.looping) c.loop
            ∙ ap next_round (
                call_all-looping s.loop.pending
                  (record s.loop { wakeups = 0; calling = true; pending = [] }) refl);
        loop = l;
        ran = ap (λ l. l.ran) l ∙ do_pending_functors-ran (handle_read s.loop);
      }

  -- No function waits for ever: from every state that the threads reach in which the loop's thread is
  -- in `epoll_wait`, functions are pending, and every thread that queued or called `quit` has written
  -- its wakeup, the eventfd is readable, so that the thread wakes, and its own next steps run all that is
  -- pending, in order. Where none of these functions calls `quit` they lead back to `epoll_wait`, or out
  -- of `loop` where it was called before.
  pub Reach-Drains :
      {s : System F}
      → Reach body start s
      → s.phase ≡ polling
      → s.in_flight ≡ 0
      → s.loop.pending ≢ []
      → (0 < s.loop.wakeups) × Drains s
  Reach-Drains {s} r e quiet waits =
      elim (not_handling polling e (λ q. cc) (Reach-IsSound body r)) [
        | inl idle ↦ absurd (waits idle)
        | inr h ↦ (omega arith, one_round s e (omega arith))
      ]
