-- ===== src/Base/Timer/Fires.antt =====
-- What shero/base/Timer.cc's `onTimer` and `resetArriveTime` fire, keep and lose.
use shero.Common.{
  ℕ, ◌≡◌, refl, ap, sym, ◌∙◌, Bool, true, false, List, [], ◌∷◌, ◌++◌, ◌&&◌, ◌||◌, map, arith, ltb,
  leb, if◌then◌else◌, All, All-imp, Bool-cases, inl, inr, keep, keep-All, keep_none,
}
use shero.Base.Timer.{
  TimerEvent, Effect, set_time, fired, before, drop_overdue, arm, reset_arrive_time, reset_arrive,
  split_ready, add_recurring, fire, on_timer, contains,
}
use shero.Base.Timer.Order.{
  IsSorted, add_recurring-IsSorted, split_ready-IsSorted, on_timer-IsSorted,
}
use shero.Base.Timer.Again.{
  set_again, insert_all, add_recurring-split_ready, contains-insert_all, contains-keep,
}

-- The callbacks among the effects, in order.
abbrev pub callbacks : List Effect → List ℕ
callbacks [] = []
callbacks (set_time d ∷ es) = callbacks es
callbacks (fired c ∷ es) = c ∷ callbacks es

callbacks-append : (es fs : List Effect) → callbacks (es ++ fs) ≡ callbacks es ++ callbacks fs
callbacks-append [] fs = refl
callbacks-append (set_time d ∷ es) fs = callbacks-append es fs
callbacks-append (fired c ∷ es) fs = ap (λ t. c ∷ t) (callbacks-append es fs)

callbacks-arm : (now : ℕ) (ts : List TimerEvent) → callbacks (arm now ts) ≡ []
unfolding arm
callbacks-arm now [] = refl
callbacks-arm now (t ∷ ts) = refl

callbacks-fire : (ts : List TimerEvent) → callbacks (fire ts) ≡ map (λ e. e.callback) ts
unfolding fire
callbacks-fire [] = refl
callbacks-fire (t ∷ ts) = ap (λ r. t.callback ∷ r) (callbacks-fire ts)

-- What follows the first arrives no sooner.
later_than :
    (t : TimerEvent) (ts : List TimerEvent)
    → All (λ x. before t x ≡ true) ts
    → All (λ x. leb t.arrive x.arrive ≡ true) ts
later_than t ts =
    All-imp (λ x. before t x ≡ true) (λ x. leb t.arrive x.arrive ≡ true) ts (λ x h. ground arith)

-- In an ordered set the events that a loop from the front drops are all that are overdue.
drop_overdue_lem :
    (now : ℕ) (ts : List TimerEvent)
    → IsSorted ts
    → drop_overdue now ts ≡ keep (λ e. leb now e.arrive) ts
unfolding drop_overdue
drop_overdue_lem now [] h = refl
drop_overdue_lem now (t ∷ ts) h = elim (Bool-cases (ltb t.arrive now)) [
  | inl s ↦
      let late : leb now t.arrive ≡ false = ground arith in
      rw (s, late) (drop_overdue_lem now ts h.1)
  | inr s ↦
      let due : leb now t.arrive ≡ true = ground arith in
      rw (s, due)
        (ap (λ r. t ∷ r)
          (sym (
            keep-All (λ e. leb now e.arrive) ts
              (All-imp (λ x. leb t.arrive x.arrive ≡ true) (λ x. leb now x.arrive ≡ true) ts
                (λ x k. ground arith) (later_than t ts h.0)))))
]

-- `resetArriveTime` on an ordered set: the events that arrive before `now` are gone, and no callback
-- has run; the timerfd is set for the first of the others, where there is one.
pub reset_arrive_time_lem :
    (now : ℕ) (ts : List TimerEvent)
    → IsSorted ts
    → ((reset_arrive_time now ts).0 ≡ keep (λ e. leb now e.arrive) ts)
      × ((reset_arrive_time now ts).1 ≡ arm now (keep (λ e. leb now e.arrive) ts))
      × (callbacks (reset_arrive_time now ts).1 ≡ [])
unfolding reset_arrive_time
reset_arrive_time_lem now ts h = (
  drop_overdue_lem now ts h,
  ap (arm now) (drop_overdue_lem now ts h),
  callbacks-arm now (drop_overdue now ts),
)

split_ready-rest :
    (clock : ℕ → ℕ) (now : ℕ) (ts : List TimerEvent)
    → IsSorted ts
    → (split_ready clock now ts).1 ≡ keep (λ e. ltb now e.arrive) ts
unfolding split_ready
split_ready-rest clock now [] h = refl
split_ready-rest clock now (t ∷ ts) h = elim (Bool-cases (ltb now t.arrive)) [
  | inl s ↦ rw s (
      ap (λ r. t ∷ r)
        (sym (
          keep-All (λ e. ltb now e.arrive) ts
            (All-imp (λ x. leb t.arrive x.arrive ≡ true) (λ x. ltb now x.arrive ≡ true) ts
              (λ x k. ground arith) (later_than t ts h.0)))))
  | inr s ↦ rw s (split_ready-rest clock now ts h.1)
]

reset_arrive-callback :
    (now : ℕ) (b : Bool) (t : TimerEvent)
    → (if b then reset_arrive now t else t).callback ≡ t.callback
unfolding reset_arrive
reset_arrive-callback now true t = refl
reset_arrive-callback now false t = refl

split_ready-callbacks :
    (clock : ℕ → ℕ) (now : ℕ) (ts : List TimerEvent)
    → IsSorted ts
    → map (λ e. e.callback) (split_ready clock now ts).0
      ≡ map (λ e. e.callback) (keep (λ e. leb e.arrive now) ts)
unfolding split_ready
split_ready-callbacks clock now [] h = refl
split_ready-callbacks clock now (t ∷ ts) h = elim (Bool-cases (ltb now t.arrive)) [
  | inl s ↦
      let early : leb t.arrive now ≡ false = ground arith in
      let rest =
        keep_none (λ e. leb e.arrive now) ts
          (All-imp (λ x. leb t.arrive x.arrive ≡ true) (λ x. leb x.arrive now ≡ false) ts
            (λ x k. ground arith) (later_than t ts h.0)) in
      rw (s, early) (ap (map (λ (e : TimerEvent). e.callback)) (sym rest))
  | inr s ↦
      let due : leb t.arrive now ≡ true = ground arith in
      rw (s, due)
        (λ i.
          reset_arrive-callback (clock t.id) t.recycle t i
          ∷ split_ready-callbacks clock now ts h.1 i)
]

-- `onTimer` on an ordered set runs the callbacks of exactly the events that have arrived by `now`, in
-- the set's order. It keeps the events still to arrive, with each recurring one that has arrived put
-- back one interval behind the clock's reading for it, less the ones that `resetArriveTime`'s later
-- reading has overtaken. The set is ordered again, and holds exactly what is one of these.
pub on_timer_lem :
    (now : ℕ) (clock : ℕ → ℕ) (after : ℕ) (ts : List TimerEvent)
    → IsSorted ts
    → let left = (on_timer now clock after ts).0 in
      let later = keep (λ e. ltb now e.arrive) ts in
      (callbacks (on_timer now clock after ts).1
        ≡ map (λ e. e.callback) (keep (λ e. leb e.arrive now) ts))
      × (left ≡ keep (λ e. leb after e.arrive) (insert_all (set_again clock now ts) later))
      × IsSorted left
      × ((x : TimerEvent)
          → contains x left
            ≡ (leb after x.arrive && (contains x (set_again clock now ts) || contains x later)))
unfolding on_timer
on_timer_lem now clock after ts h =
    let ready = (split_ready clock now ts).0 in
    let rest = (split_ready clock now ts).1 in
    let later = keep (λ e. ltb now e.arrive) ts in
    let put_back = insert_all (set_again clock now ts) later in
    let reset =
      reset_arrive_time_lem after (add_recurring ready rest)
        (add_recurring-IsSorted ready rest (split_ready-IsSorted clock now ts h)) in
    let left : (reset_arrive_time after (add_recurring ready rest)).0
        ≡ keep (λ e. leb after e.arrive) put_back =
      reset.0
      ∙ ap (λ t. keep (λ e. leb after e.arrive) (add_recurring ready t))
          (split_ready-rest clock now ts h)
      ∙ ap (keep (λ e. leb after e.arrive)) (add_recurring-split_ready clock now ts later h) in
    (
      callbacks-append (reset_arrive_time after (add_recurring ready rest)).1 (fire ready)
          ∙ ap (λ t. t ++ callbacks (fire ready)) reset.2
          ∙ callbacks-fire ready
          ∙ split_ready-callbacks clock now ts h,
      left,
      on_timer-IsSorted now clock after ts h,
      λ x.
          ap (contains x) left
          ∙ contains-keep after x put_back
          ∙ ap (λ b. leb after x.arrive && b)
              (contains-insert_all x (set_again clock now ts) later),
    )
