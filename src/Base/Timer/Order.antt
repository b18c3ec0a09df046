-- ===== src/Base/Timer/Order.antt =====
-- The order of shero/base/Timer.cc's set: every operation keeps it, and what the set holds after.
use shero.Common.{
  ℕ, ◌≡◌, refl, ap, sym, subst, ◌∙◌, Bool, true, false, not, ◌&&◌, ◌||◌, some, List, [], ◌∷◌, arith,
  ltb, if◌then◌else◌, All, All-imp, Bool-cases, inl, inr,
}
use shero.Base.Timer.{
  TimerEvent, before, same_event, insert, contains, erase, drop_overdue, reset_arrive_time,
  add_event, is_first, del_timer, add_recurring, split_ready, on_timer, comes_first,
}

-- Every event is before those that follow it.
abbrev pub IsSorted : List TimerEvent → Type 0
IsSorted [] = Unit
IsSorted (t ∷ ts) = All (λ x. before t x ≡ true) ts × IsSorted ts

pub before_trans : (a b c : TimerEvent) → before a b ≡ true → before b c ≡ true → before a c ≡ true
before_trans a b c h k = ground arith

before_asymm : (a b : TimerEvent) → before a b ≡ true → before b a ≡ false
before_asymm a b h = ground arith

pub data EventOrder (a b : TimerEvent) : Type 0 where
  earlier : before a b ≡ true → before b a ≡ false → EventOrder a b
  later : before a b ≡ false → before b a ≡ true → EventOrder a b
  equal : before a b ≡ false → before b a ≡ false → EventOrder a b

pub event_order : (a b : TimerEvent) → EventOrder a b
event_order a b = elim (Bool-cases (before a b)) [
  | inl lt ↦ earlier lt (before_asymm a b lt)
  | inr ge ↦ elim (Bool-cases (before b a)) [ inl gt ↦ later ge gt | inr le ↦ equal ge le ]
]

before-All :
    (a b : TimerEvent) (ts : List TimerEvent)
    → before a b ≡ true
    → All (λ x. before b x ≡ true) ts
    → All (λ x. before a x ≡ true) ts
before-All a b ts h =
    All-imp (λ x. before b x ≡ true) (λ x. before a x ≡ true) ts (λ x k. before_trans a b x h k)

insert_above :
    (a e : TimerEvent) (ts : List TimerEvent)
    → before a e ≡ true
    → All (λ x. before a x ≡ true) ts
    → All (λ x. before a x ≡ true) (insert e ts)
unfolding insert
insert_above a e [] h k = (h, tt)
insert_above a e (t ∷ ts) h k = go (event_order e t) (insert_above a e ts h k.1)
  where
    go :
        EventOrder e t
        → All (λ x. before a x ≡ true) (insert e ts)
        → All (λ x. before a x ≡ true) (insert e (t ∷ ts))
    go (earlier p q) ih = rw p (h, k)
    go (later p q) ih = rw (p, q) (k.0, ih)
    go (equal p q) ih = rw (p, q) k

-- An insertion keeps the order.
pub insert-IsSorted : (e : TimerEvent) (ts : List TimerEvent) → IsSorted ts → IsSorted (insert e ts)
unfolding insert
insert-IsSorted e [] h = (tt, tt)
insert-IsSorted e (t ∷ ts) h = go (event_order e t) (insert-IsSorted e ts h.1)
  where
    go : EventOrder e t → IsSorted (insert e ts) → IsSorted (insert e (t ∷ ts))
    go (earlier p q) ih = rw p ((p, before-All e t ts p h.0), h)
    go (later p q) ih = rw (p, q) (insert_above t e ts q h.0, ih)
    go (equal p q) ih = rw (p, q) h

-- What the set holds after an insertion: what it held, and the event.
pub contains-insert :
    (x e : TimerEvent) (ts : List TimerEvent)
    → contains x (insert e ts) ≡ (same_event x e || contains x ts)
unfolding contains insert
contains-insert x e [] = refl
contains-insert x e (t ∷ ts) = go (event_order e t) (contains-insert x e ts)
  where
    go :
        EventOrder e t
        → contains x (insert e ts) ≡ (same_event x e || contains x ts)
        → contains x (insert e (t ∷ ts)) ≡ (same_event x e || contains x (t ∷ ts))
    go (earlier p q) ih = rw p refl
    go (later p q) ih = rw (p, q) (ground (arith, ih))
    go (equal p q) ih = rw (p, q) (ground arith)

-- Nothing that all of a list is after stands in it.
above-contains :
    (a x : TimerEvent) (ts : List TimerEvent)
    → same_event x a ≡ true
    → All (λ y. before a y ≡ true) ts
    → contains x ts ≡ false
unfolding contains
above-contains a x [] h k = refl
above-contains a x (t ∷ ts) h k = ground (arith, k.0, above-contains a x ts h k.1)

erase_above :
    (a e : TimerEvent) (ts : List TimerEvent)
    → All (λ y. before a y ≡ true) ts
    → All (λ y. before a y ≡ true) (erase e ts)
unfolding erase
erase_above a e [] h = tt
erase_above a e (t ∷ ts) h = elim (Bool-cases (same_event e t)) [
  | inl s ↦ rw s h.1
  | inr s ↦ rw s (h.0, erase_above a e ts h.1)
]

pub erase-IsSorted : (e : TimerEvent) (ts : List TimerEvent) → IsSorted ts → IsSorted (erase e ts)
unfolding erase
erase-IsSorted e [] h = tt
erase-IsSorted e (t ∷ ts) h = elim (Bool-cases (same_event e t)) [
  | inl s ↦ rw s h.1
  | inr s ↦ rw s (erase_above t e ts h.0, erase-IsSorted e ts h.1)
]

-- What the set holds after an erasure: what it held, but for the event.
pub contains-erase :
    (x e : TimerEvent) (ts : List TimerEvent)
    → IsSorted ts
    → contains x (erase e ts) ≡ (not (same_event x e) && contains x ts)
unfolding contains erase
contains-erase x e [] h = ground arith
contains-erase x e (t ∷ ts) h = elim (Bool-cases (same_event e t)) [
  | inl s ↦ rw s (ground (arith, above-contains t x ts, h.0))
  | inr s ↦ rw s (ground (arith, contains-erase x e ts h.1))
]

drop_overdue-IsSorted :
    (now : ℕ) (ts : List TimerEvent) → IsSorted ts → IsSorted (drop_overdue now ts)
unfolding drop_overdue
drop_overdue-IsSorted now [] h = tt
drop_overdue-IsSorted now (t ∷ ts) h = elim (Bool-cases (ltb t.arrive now)) [
  | inl s ↦ rw s (drop_overdue-IsSorted now ts h.1)
  | inr s ↦ rw s h
]

pub reset_arrive_time-IsSorted :
    (now : ℕ) (ts : List TimerEvent) → IsSorted ts → IsSorted (reset_arrive_time now ts).0
unfolding reset_arrive_time
reset_arrive_time-IsSorted now ts h = drop_overdue-IsSorted now ts h

pub add_event-IsSorted :
    (now : ℕ) (reset : Bool) (e : TimerEvent) (ts : List TimerEvent)
    → IsSorted ts
    → IsSorted (add_event now reset e ts).0
unfolding add_event
add_event-IsSorted now reset e ts h = elim (Bool-cases (comes_first e ts && reset)) [
  | inl s ↦ rw s (reset_arrive_time-IsSorted now (insert e ts) (insert-IsSorted e ts h))
  | inr s ↦ rw s (insert-IsSorted e ts h)
]

pub add_recurring-IsSorted :
    (es ts : List TimerEvent) → IsSorted ts → IsSorted (add_recurring es ts)
unfolding add_recurring
add_recurring-IsSorted [] ts h = h
add_recurring-IsSorted (e ∷ es) ts h =
    elim e.recycle
      as (λ b. IsSorted (if b then add_recurring es (insert e ts) else add_recurring es ts)) [
        | true ↦ add_recurring-IsSorted es (insert e ts) (insert-IsSorted e ts h)
        | false ↦ add_recurring-IsSorted es ts h
      ]

pub split_ready-IsSorted :
    (clock : ℕ → ℕ) (now : ℕ) (ts : List TimerEvent)
    → IsSorted ts
    → IsSorted (split_ready clock now ts).1
unfolding split_ready
split_ready-IsSorted clock now [] h = tt
split_ready-IsSorted clock now (t ∷ ts) h = elim (Bool-cases (ltb now t.arrive)) [
  | inl s ↦ rw s h
  | inr s ↦ rw s (split_ready-IsSorted clock now ts h.1)
]

-- `onTimer` keeps the set in order, whatever times the recurring events get.
pub on_timer-IsSorted :
    (now : ℕ) (clock : ℕ → ℕ) (after : ℕ) (ts : List TimerEvent)
    → IsSorted ts
    → IsSorted (on_timer now clock after ts).0
unfolding on_timer
on_timer-IsSorted now clock after ts h =
    reset_arrive_time-IsSorted after
      (add_recurring (split_ready clock now ts).0 (split_ready clock now ts).1)
      (add_recurring-IsSorted (split_ready clock now ts).0 (split_ready clock now ts).1
        (split_ready-IsSorted clock now ts h))

contains_same :
    (x e : TimerEvent) (ts : List TimerEvent)
    → same_event x e ≡ true
    → contains x ts ≡ contains e ts
unfolding contains
contains_same x e [] s = refl
contains_same x e (t ∷ ts) s = ground (arith, contains_same x e ts s)

-- Where `delTimer` is defined it leaves the set in order, with all it held but the event.
pub del_timer-contains :
    (e : TimerEvent) (ts left : List TimerEvent)
    → IsSorted ts
    → del_timer e ts ≡ some left
    → IsSorted left × ((x : TimerEvent) → contains x left ≡ (not (same_event x e) && contains x ts))
unfolding del_timer
del_timer-contains e ts left h k = elim (Bool-cases (contains e ts)) [
  | inl c ↦ elim (Bool-cases (is_first e ts)) [
    | inl f ↦ ground arith
    | inr f ↦
        let same : erase e ts ≡ left = ground arith in
        (
          subst IsSorted same (erase-IsSorted e ts h),
          λ x. ap (contains x) (sym same) ∙ contains-erase x e ts h,
        )
  ]
  | inr c ↦
      let same : ts ≡ left = ground arith in
      (subst IsSorted same h, λ x. ground (arith, contains_same x e ts))
]
