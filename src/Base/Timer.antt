-- ===== src/Base/Timer.antt =====
-- shero/base/Timer.h and Timer.cc: timers in a `std::set` ordered by the time of arrival, and one
-- timerfd for the first of them. The set is the list of its events in order; `id` is an event's
-- address. The clock's readings, in milliseconds, are arguments. What a method does is the list of
-- its effects: a `timerfd_settime` with the milliseconds to go, or a callback.
pub mod Order
pub mod Again
pub mod Fires
use shero.Common.{
  ℕ, ◌+◌, ◌-◌, ◌%◌, ◌^◌, Bool, true, false, not, ◌&&◌, ◌||◌, Option, none, some, List, [], ◌∷◌,
  ◌++◌, ltb, leb, ◌==◌, if◌then◌else◌,
}

pub record TimerEvent : Type 0 where
  pub id : ℕ
  pub recycle : Bool
  pub arrive : ℕ
  pub interval : ℕ
  pub callback : ℕ

pub data Effect : Type 0 where
  set_time : ℕ → Effect
  fired : ℕ → Effect

-- `TimerEvent(interval, cb, recycle, timer)` at the address `id`.
unfoldable pub new_event : ℕ → ℕ → ℕ → ℕ → Bool → TimerEvent
new_event now id interval callback recycle = record {
  id = id;
  recycle = recycle;
  arrive = (now + interval) % 2 ^ 64;
  interval = interval;
  callback = callback;
}

-- `resetArrive`.
unfoldable pub reset_arrive : ℕ → TimerEvent → TimerEvent
reset_arrive now e = record e { arrive = (now + e.interval) % 2 ^ 64 }

-- `Comparator`, on events that are there.
abbrev pub before : TimerEvent → TimerEvent → Bool
before l r = ltb l.arrive r.arrive || (not (ltb r.arrive l.arrive) && ltb l.id r.id)

-- Neither is before the other: the set takes them for one.
abbrev pub same_event : TimerEvent → TimerEvent → Bool
same_event l r = not (before l r) && not (before r l)

-- `m_timers.insert`: an event that is there already stays alone.
unfoldable pub insert : TimerEvent → List TimerEvent → List TimerEvent
insert e [] = e ∷ []
insert e (t ∷ ts) =
    let rest = insert e ts in
    if before e t then e ∷ t ∷ ts else if before t e then t ∷ rest else t ∷ ts

-- `m_timers.find(timer) != end`.
unfoldable pub contains : TimerEvent → List TimerEvent → Bool
contains e [] = false
contains e (t ∷ ts) = same_event e t || contains e ts

-- `m_timers.erase` of what `find` found.
unfoldable pub erase : TimerEvent → List TimerEvent → List TimerEvent
erase e [] = []
erase e (t ∷ ts) = let rest = erase e ts in if same_event e t then ts else t ∷ rest

-- The loop of `resetArriveTime` that erases what has arrived before `now`.
unfoldable pub drop_overdue : ℕ → List TimerEvent → List TimerEvent
drop_overdue now [] = []
drop_overdue now (t ∷ ts) =
    let rest = drop_overdue now ts in if ltb t.arrive now then rest else t ∷ ts

-- Sets the timerfd for the first event, if there is one.
unfoldable pub arm : ℕ → List TimerEvent → List Effect
arm now [] = []
arm now (t ∷ ts) = set_time (t.arrive - now) ∷ []

-- `resetArriveTime`.
unfoldable pub reset_arrive_time : ℕ → List TimerEvent → List TimerEvent × List Effect
unfolding drop_overdue arm
reset_arrive_time now ts = let left = drop_overdue now ts in (left, arm now left)

-- Whether the set is empty or the event arrives before its first.
unfoldable pub comes_first : TimerEvent → List TimerEvent → Bool
comes_first e [] = true
comes_first e (t ∷ ts) = ltb e.arrive t.arrive

-- `addTimer(timer, reset)`.
unfoldable pub add_event : ℕ → Bool → TimerEvent → List TimerEvent → List TimerEvent × List Effect
unfolding comes_first insert reset_arrive_time
add_event now reset e ts =
    let added = insert e ts in
    if comes_first e ts && reset then reset_arrive_time now added else (added, [])

-- `addTimer(interval, cb, recycle)`, with the readings of the constructor and of `resetArriveTime`.
unfoldable pub add_timer :
    ℕ → ℕ → ℕ → ℕ → ℕ → Bool → List TimerEvent → TimerEvent × List TimerEvent × List Effect
unfolding new_event add_event
add_timer made now id interval callback recycle ts =
    let e = new_event made id interval callback recycle in
    let (added, effects) = add_event now true e ts in (e, added, effects)

-- `hasTimer`.
unfoldable pub has_timer : List TimerEvent → Bool
has_timer [] = false
has_timer (t ∷ ts) = true

-- Whether `find` gives the first element.
unfoldable pub is_first : TimerEvent → List TimerEvent → Bool
is_first e [] = false
is_first e (t ∷ ts) = same_event e t

-- `delTimer`. Where the event is the first, the iterator is read after `erase` has made it invalid:
-- `none`, for behaviour that is undefined. Where it is not, nothing more is done.
unfoldable pub del_timer : TimerEvent → List TimerEvent → Option (List TimerEvent)
unfolding contains is_first erase
del_timer e ts =
    if not (contains e ts) then some ts else if is_first e ts then none else some (erase e ts)

-- `resetInterval`: the event as it leaves it, and the set; `none` where `cancel` is undefined.
unfoldable pub reset_interval :
    ℕ
    → ℕ
    → ℕ
    → Bool
    → TimerEvent
    → List TimerEvent
    → Option (TimerEvent × List TimerEvent × List Effect)
unfolding del_timer add_event
reset_interval read now interval start_now e ts =
    let start = if start_now then read else (e.arrive + 2 ^ 64 - e.interval) % 2 ^ 64 in
    let e' = record e { arrive = (start + interval) % 2 ^ 64; interval = interval } in
    if interval == e.interval && not start_now then some (e, ts, []) else elim (del_timer e ts) [
      | none ↦ none
      | some left ↦ let (added, effects) = add_event now true e' left in some (e', added, effects)
    ]

-- The loop of `onTimer`: the events that have arrived by `now`, of which the recurring ones get a new
-- time, and what stays in the set. `clock` gives the reading for each event.
unfoldable pub split_ready : (ℕ → ℕ) → ℕ → List TimerEvent → List TimerEvent × List TimerEvent
unfolding reset_arrive
split_ready clock now [] = ([], [])
split_ready clock now (t ∷ ts) =
    let (ready, rest) = split_ready clock now ts in
    if ltb now t.arrive
    then ([], t ∷ ts)
    else ((if t.recycle then reset_arrive (clock t.id) t else t) ∷ ready, rest)

-- The recurring ones go back: `addTimer(i, false)`.
unfoldable pub add_recurring : List TimerEvent → List TimerEvent → List TimerEvent
unfolding insert
add_recurring [] ts = ts
add_recurring (e ∷ es) ts =
    let added = add_recurring es (insert e ts) in
    let passed = add_recurring es ts in if e.recycle then added else passed

-- The callbacks, which run last.
unfoldable pub fire : List TimerEvent → List Effect
fire [] = []
fire (e ∷ es) = fired e.callback ∷ fire es

-- `onTimer`, with the readings at its start, for each recurring event, and in `resetArriveTime`.
unfoldable pub on_timer : ℕ → (ℕ → ℕ) → ℕ → List TimerEvent → List TimerEvent × List Effect
unfolding split_ready add_recurring reset_arrive_time fire
on_timer now clock after ts =
    let (ready, rest) = split_ready clock now ts in
    let (left, armed) = reset_arrive_time after (add_recurring ready rest) in
    (left, armed ++ fire ready)
