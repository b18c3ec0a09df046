-- ===== src/Tests/Loops.antt =====
-- The event loop, timers and the logger: concrete runs.
use shero.Common.{
  ℕ, ◌<◌, ◌≡◌, ◌≢◌, ◌⊎◌, refl, Bool, true, false, none, some, List, [], ◌∷◌, map, ◌==◌, ltb, leb,
  if◌then◌else◌, keep, All, ◌&&◌, ◌||◌,
}
use shero.Common.Bytes.{Bytes, codes}
use shero.Net.EventLoop.{push, wakeup}
use shero.Net.EventLoop.Threads.{
  System, start, Reach, here, next, other_push, other_wakeup, IsSound, Reach-IsSound,
}
use shero.Net.EventLoop.Threads.Progress.{Drains, Reach-Drains}
use shero.Base.Timer.{TimerEvent, contains, on_timer}
use shero.Base.Timer.Again.{set_again, insert_all}
use shero.Base.Timer.Order.{IsSorted}
use shero.Base.Timer.Fires.{callbacks, on_timer_lem}
use shero.Base.Log.{AsyncLogger, file_mode, file_name, write_batch}
use shero.Base.Log.Files.{to_open, GoesTo, written, joined, write_batch_lem}
use shero.Base.Log.Queue as Queue
use shero.Net.EventLoop.Launch as Launch

-- Function 1 queues function 2.
abbrev follow_up : ℕ → List ℕ
follow_up f = if f == 1 then 2 ∷ [] else []

abbrev one_pushed : System ℕ
one_pushed = record start { loop = push 1 start.loop; in_flight = 1; queued = 1 ∷ [] }

abbrev one_waiting : System ℕ
one_waiting = record one_pushed { loop = wakeup one_pushed.loop; in_flight = 0 }

one_waiting-Reach : Reach follow_up start one_waiting
one_waiting-Reach = next (next here (other_push 1)) (other_wakeup 0 refl)

Reach-IsSound_example : IsSound one_waiting
Reach-IsSound_example = Reach-IsSound follow_up one_waiting-Reach

one_is_pending : one_waiting.loop.pending ≢ []
unfolding push wakeup
one_is_pending e = cc

Reach-Drains_example : (0 < one_waiting.loop.wakeups) × Drains follow_up one_waiting
Reach-Drains_example = Reach-Drains follow_up one_waiting-Reach refl refl one_is_pending

abbrev event : ℕ → ℕ → Bool → TimerEvent
event id arrive recycle = record {
  id = id;
  recycle = recycle;
  arrive = arrive;
  interval = 50;
  callback = id;
}

-- Due, due, and due between the two readings of the clock.
abbrev three_events : List TimerEvent
three_events = event 1 90 false ∷ event 2 100 true ∷ event 3 101 false ∷ []

three_events-IsSorted : IsSorted three_events
three_events-IsSorted = ((refl, (refl, tt)), ((refl, tt), (tt, tt)))

on_timer_lem_example :
    let left = (on_timer 100 (λ i. 100) 102 three_events).0 in
    let later = keep (λ e. ltb 100 e.arrive) three_events in
    (callbacks (on_timer 100 (λ i. 100) 102 three_events).1
      ≡ map (λ e. e.callback) (keep (λ e. leb e.arrive 100) three_events))
    × (left
        ≡ keep (λ e. leb 102 e.arrive) (insert_all (set_again (λ i. 100) 100 three_events) later))
    × IsSorted left
    × ((x : TimerEvent)
        → contains x left ≡ (
            leb 102 x.arrive
            && (contains x (set_again (λ i. 100) 100 three_events) || contains x later)))
on_timer_lem_example = on_timer_lem 100 (λ i. 100) 102 three_events three_events-IsSorted

abbrev fresh_logger : AsyncLogger
fresh_logger = record {
  file_path = codes "./";
  mode = file_mode;
  max_size = 100;
  no = 0;
  date = [];
  reopen = true;
  file = none;
}

abbrev batch : List Bytes
batch = codes "one" ∷ [] ∷ codes "two" ∷ []

write_batch_lem_example :
    let (l', effects) = write_batch (codes "20240101") 200 batch fresh_logger in
    (l'.date ≡ codes "20240101")
    × (l'.file ≡ some (file_name l'))
    × (written effects ≡ joined batch)
    × All (GoesTo (file_name l')) effects
write_batch_lem_example = write_batch_lem (codes "20240101") 200 batch fresh_logger (to_open refl)

abbrev one_batch : Queue.State ℕ
one_batch = Queue.enqueue 5 Queue.initial

not_tested : (Queue.initial {B = ℕ}).phase ≢ Queue.tested
not_tested e = cc

one_batch-Reach : Queue.Reach Queue.initial one_batch
one_batch-Reach = Queue.more Queue.initial one_batch Queue.here (Queue.pushes 5 not_tested)

Reach-IsKept_example : Queue.IsKept one_batch
Reach-IsKept_example = Queue.Reach-IsKept one_batch one_batch-Reach

abbrev about_to_wait : Queue.State ℕ
about_to_wait = record Queue.initial { phase = Queue.tested }

not_tested_waiting : (Queue.stopped_too_early about_to_wait).phase ≢ Queue.tested
unfolding Queue.stopped_too_early
not_tested_waiting e = cc

abbrev pushed_late : Queue.State ℕ
pushed_late = Queue.enqueue 5 (Queue.stopped_too_early about_to_wait)

stopped_too_early_lem_example :
    Queue.Reach about_to_wait (Queue.stopped_too_early about_to_wait)
    × (((b : ℕ) × (pushed_late ≡ Queue.enqueue b (Queue.stopped_too_early about_to_wait)))
        ⊎ (pushed_late ≡ record (Queue.stopped_too_early about_to_wait) { phase = Queue.checking }))
stopped_too_early_lem_example =
    Queue.stopped_too_early_lem about_to_wait pushed_late refl refl refl
      (Queue.pushes 5 not_tested_waiting)

abbrev prepared : Launch.Launch ℕ
prepared = record Launch.launched { called = true }

abbrev asleep : Launch.Launch ℕ
asleep = record prepared { caller = Launch.waiting }
