-- ===== src/Base/Timer/Again.antt =====
-- The recurring timers that shero/base/Timer.cc's `onTimer` puts back, described beside its loops.
use shero.Common.{
  ℕ, ◌+◌, ◌%◌, ◌^◌, ◌≡◌, refl, ap, sym, ◌∙◌, Bool, true, false, ◌&&◌, ◌||◌, List, [], ◌∷◌, map,
  arith, ltb, leb, All, All-imp, Bool-cases, inl, inr, keep, keep_none, if◌then◌else◌,
}
use shero.Base.Timer.{
  TimerEvent, before, insert, contains, reset_arrive, split_ready, add_recurring,
}
use shero.Base.Timer.Order.{IsSorted, contains-insert}

-- A recurring timer one interval behind the clock's reading for it.
abbrev pub rearmed : (ℕ → ℕ) → TimerEvent → TimerEvent
rearmed clock e = record e { arrive = (clock e.id + e.interval) % 2 ^ 64 }

-- The timers that are set again: every recurring one that has arrived by `now`.
abbrev pub set_again : (ℕ → ℕ) → ℕ → List TimerEvent → List TimerEvent
set_again clock now ts = map (rearmed clock) (keep (λ e. e.recycle && leb e.arrive now) ts)

-- One after the other into the ordered set.
abbrev pub insert_all : List TimerEvent → List TimerEvent → List TimerEvent
insert_all [] ts = ts
insert_all (e ∷ es) ts = insert_all es (insert e ts)

none_again :
    (clock : ℕ → ℕ) (now : ℕ) (ts : List TimerEvent)
    → All (λ x. ltb now x.arrive ≡ true) ts
    → set_again clock now ts ≡ []
none_again clock now ts h = ap (map (rearmed clock)) (
    keep_none (λ e. e.recycle && leb e.arrive now) ts
      (All-imp (λ x. ltb now x.arrive ≡ true) (λ x. (x.recycle && leb x.arrive now) ≡ false) ts
        (λ x k. ground arith) h))

one_back :
    (b : Bool) (clock : ℕ → ℕ) (t : TimerEvent) (es us : List TimerEvent)
    → t.recycle ≡ b
    → add_recurring ((if b then rearmed clock t else t) ∷ es) us
      ≡ add_recurring es (if b then insert (rearmed clock t) us else us)
unfolding add_recurring
one_back true clock t es us e =
    ap (λ b. if b then add_recurring es (insert (rearmed clock t) us) else add_recurring es us) e
one_back false clock t es us e =
    ap (λ b. if b then add_recurring es (insert t us) else add_recurring es us) e

one_again :
    (b due : Bool) (clock : ℕ → ℕ) (t : TimerEvent) (es us : List TimerEvent)
    → due ≡ true
    → insert_all (map (rearmed clock) (if b && due then t ∷ es else es)) us
      ≡ insert_all (map (rearmed clock) es) (if b then insert (rearmed clock t) us else us)
one_again true due clock t es us e = rw e refl
one_again false due clock t es us e = refl

-- In an ordered set what `onTimer` puts back is what is to be set again.
pub add_recurring-split_ready :
    (clock : ℕ → ℕ) (now : ℕ) (ts us : List TimerEvent)
    → IsSorted ts
    → add_recurring (split_ready clock now ts).0 us ≡ insert_all (set_again clock now ts) us
unfolding split_ready reset_arrive
add_recurring-split_ready clock now [] us h = unfold add_recurring in refl
add_recurring-split_ready clock now (t ∷ ts) us h = elim (Bool-cases (ltb now t.arrive)) [
  | inl s ↦
      let later =
        All-imp (λ x. before t x ≡ true) (λ x. ltb now x.arrive ≡ true) ts (λ x k. ground arith)
          h.0 in
      rw s (
        unfold add_recurring in
        ap (λ es. insert_all es us) (sym (none_again clock now (t ∷ ts) (s, later))))
  | inr s ↦
      let due : leb t.arrive now ≡ true = ground arith in
      let us' : List TimerEvent = if t.recycle then insert (rearmed clock t) us else us in
      rw s (
        one_back t.recycle clock t (split_ready clock now ts).0 us refl
        ∙ add_recurring-split_ready clock now ts us' h.1
        ∙ sym (
            one_again t.recycle (leb t.arrive now) clock t
              (keep (λ e. e.recycle && leb e.arrive now) ts) us due))
]

-- What the ordered set holds after.
pub contains-insert_all :
    (x : TimerEvent) (es ts : List TimerEvent)
    → contains x (insert_all es ts) ≡ (contains x es || contains x ts)
unfolding contains
contains-insert_all x [] ts = refl
contains-insert_all x (e ∷ es) ts =
    contains-insert_all x es (insert e ts) ∙ ground (arith, contains-insert x e ts)

pub contains-keep :
    (now : ℕ) (x : TimerEvent) (ts : List TimerEvent)
    → contains x (keep (λ e. leb now e.arrive) ts) ≡ (leb now x.arrive && contains x ts)
unfolding contains
contains-keep now x [] = ground arith
contains-keep now x (t ∷ ts) = elim (Bool-cases (leb now t.arrive)) [
  | inl h ↦ rw h (ground (arith, contains-keep now x ts))
  | inr h ↦ rw h (ground (arith, contains-keep now x ts))
]
