-- ===== src/Net/EventLoop/Reactor/Rounds.antt =====
-- What every reactor that the loop's thread reaches keeps.
use shero.Common.{
  ◌≢◌, ◌⊎◌, ◌↔◌, not, ◌||◌, arith, ℕ, ◌≡◌, refl, sym, ap, subst, ◌∙◌, Bool, true, false, Option,
  none, some, List, [], ◌∷◌, ◌==◌, ==_iff, Bool-cases, inl, inr,
}
use shero.Net.Channel.{ChannelStatus, is_none_event, new_channel}
use shero.Net.Poller.{in_map}
use shero.Net.EventLoop.Reactor.{
  is_at, may_remove, Reactor, new_reactor, Change, remove, update, activate, Step, Reach, here,
  next,
}
use shero.Net.EventLoop.Reactor.Refines.{is_mapped, entry, IsMirrored, update-IsMirrored}
use shero.Net.EventLoop.Reactor.Removes.{can_remove, remove-IsMirrored, remove_refused}

-- Only the active channels and the reported events change.
activate-IsMirrored :
    (reported : List (ℕ × ℕ)) (r : Reactor) → IsMirrored r → IsMirrored (activate reported r)
unfolding activate
activate-IsMirrored [] r h = h
activate-IsMirrored ((fd, events) ∷ reported) r h = activate-IsMirrored reported _ (record {
  fits = λ k. elim (Bool-cases (k == fd)) [
    | inl same ↦
        let f = h.fits k in
        let e = ap r.channel (sym ((==_iff k fd).0 same)) in
        record {
          own = rw same (ap (λ c. c.fd) e ∙ f.own);
          mapped = rw same (f.mapped ∙ ap (λ c. is_mapped c.status) (sym e));
          listed = rw same (f.listed ∙ ap (λ c. entry c.status c.event) (sym e));
        }
    | inr apart ↦
        let f = h.fits k in
        record { own = rw apart f.own; mapped = rw apart f.mapped; listed = rw apart f.listed }
  ];
  no_errors = h.no_errors;
})

-- A result of a total operation is the one it has.
same_result :
    {o : Option Reactor} {r' : Reactor}
    → (s : Reactor) × (o ≡ some s) × IsMirrored s
    → o ≡ some r'
    → IsMirrored r'
same_result {o} {r'} (s, e, h) k = subst IsMirrored (let same : s ≡ r' = cc (e, k) in same) h

-- The fields of the round have no part in it.
aside-IsMirrored :
    (r : Reactor) (active : List ℕ) (current : Option ℕ) (handling : Bool)
    → IsMirrored r
    → IsMirrored (record r { active = active; current = current; handling = handling })
aside-IsMirrored r active current handling h = record {
  fits = λ k. let f = h.fits k in record { own = f.own; mapped = f.mapped; listed = f.listed };
  no_errors = h.no_errors;
}

abbrev pub is_some : Option Reactor → Bool
is_some none = false
is_some (some r) = true

Step-IsMirrored : {r s : Reactor} → Step r s → IsMirrored r → IsMirrored s
Step-IsMirrored {r} (Step.polls reported q listed) h =
    let cleared = record r { active = [] } in
    let a = activate-IsMirrored reported cleared (aside-IsMirrored r [] r.current r.handling h) in
    let t = activate reported cleared in aside-IsMirrored t t.active t.current true a
Step-IsMirrored {r} (Step.handles fd q a) h = aside-IsMirrored r r.active (some fd) r.handling h
Step-IsMirrored {r} (Step.finishes q) h = aside-IsMirrored r r.active none false h
Step-IsMirrored {r} (Step.updates fd e r' k) h = same_result (update-IsMirrored fd e r h) k
Step-IsMirrored {r} (Step.removes fd r' k) h = elim (Bool-cases (can_remove fd r)) [
  | inl y ↦ same_result (remove-IsMirrored fd r h y) k
  | inr n ↦ absurd (cc (remove_refused fd r h n, k))
]

-- In every state that the loop's thread reaches through rounds, updates and removals, the poller's map
-- holds the descriptors of exactly the channels whose status is ADD or DELETE, the kernel listens to
-- exactly those whose status is ADD, each with the events of its channel, and `epoll_ctl` never refused.
pub Reach-IsMirrored : {r : Reactor} → Reach r → IsMirrored r
unfolding new_reactor in_map new_channel
Reach-IsMirrored here = record {
  fits = λ k. record { own = refl; mapped = refl; listed = refl };
  no_errors = refl;
}
Reach-IsMirrored (next reached st) = Step-IsMirrored st (Reach-IsMirrored reached)

is_some_of : {o : Option Reactor} (r : Reactor) → o ≡ some r → is_some o ≡ true
is_some_of r e = ap is_some e

-- When a channel may be removed: it is registered and listens to nothing, and events are not handled, or
-- the channel is the one at hand, or it is not active.
abbrev pub Removable : ℕ → Reactor → Type 0
Removable fd r =
    ((r.channel fd).status ≢ ChannelStatus.new)
    × ((r.channel fd).event ≡ 0)
    × ((r.handling ≡ false) ⊎ (r.current ≡ some fd) ⊎ (in_map fd r.active ≡ false))

registered_iff : (s : ChannelStatus) → (is_mapped s ≡ true) ↔ (s ≢ ChannelStatus.new)
registered_iff ChannelStatus.new = (λ h. cc, λ h. absurd (h refl))
registered_iff ChannelStatus.add = (λ h e. cc, λ h. refl)
registered_iff ChannelStatus.delete = (λ h e. cc, λ h. refl)

at_hand_iff : (o : Option ℕ) (fd : ℕ) → (is_at o fd ≡ true) ↔ (o ≡ some fd)
at_hand_iff none fd = (λ h. cc, λ e. cc)
at_hand_iff (some k) fd = (λ h. ap some ((==_iff k fd).0 h), λ e. (==_iff k fd).1 (cc e))

allowed_iff :
    (handling at_hand active : Bool)
    → ((not handling || (at_hand || not active)) ≡ true)
      ↔ ((handling ≡ false) ⊎ (at_hand ≡ true) ⊎ (active ≡ false))
allowed_iff false at_hand active = (λ h. inl refl, λ h. refl)
allowed_iff true true active = (λ h. inr (inl refl), λ h. refl)
allowed_iff true false false = (λ h. inr (inr refl), λ h. refl)
allowed_iff true false true =
    (λ h. cc, λ h. elim h [ inl e ↦ cc | inr (inl e) ↦ cc | inr (inr e) ↦ cc ])

can_remove_iff : (fd : ℕ) (r : Reactor) → (can_remove fd r ≡ true) ↔ Removable fd r
can_remove_iff fd r = (to, from)
  where
    to : can_remove fd r ≡ true → Removable fd r
    to h =
        let a : may_remove fd r ≡ true = ground (arith, h) in
        let m : is_mapped (r.channel fd).status ≡ true = ground (arith, h) in
        let q : is_none_event (r.channel fd) ≡ true = ground (arith, h) in
        (
          (registered_iff (r.channel fd).status).0 m,
          (==_iff (r.channel fd).event 0).0 q,
          elim ((allowed_iff r.handling (is_at r.current fd) (in_map fd r.active)).0 a) [
            | inl e ↦ inl e
            | inr (inl e) ↦ inr (inl ((at_hand_iff r.current fd).0 e))
            | inr (inr e) ↦ inr (inr e)
          ],
        )

    from : Removable fd r → can_remove fd r ≡ true
    from (s, q, a) =
        let allowed : may_remove fd r ≡ true =
          (allowed_iff r.handling (is_at r.current fd) (in_map fd r.active)).1 (elim a [
            | inl e ↦ inl e
            | inr (inl e) ↦ inr (inl ((at_hand_iff r.current fd).1 e))
            | inr (inr e) ↦ inr (inr e)
          ]) in
        let mapped = (registered_iff (r.channel fd).status).1 s in
        let quiet : is_none_event (r.channel fd) ≡ true = (==_iff (r.channel fd).event 0).1 q in
        rw (allowed, mapped, quiet) refl

-- In every reached state each change of a channel goes through, and a removal goes through exactly if the
-- channel is registered and listens to nothing and, while events are handled, is the one at hand or not
-- active; otherwise an assert fails.
pub update-remove :
    {r : Reactor} (fd : ℕ) (e : Change)
    → Reach r
    → (is_some (update fd e r) ≡ true) × ((is_some (remove fd r) ≡ true) ↔ Removable fd r)
update-remove {r} fd e reached =
    let h = Reach-IsMirrored reached in
    let (r', u, f) = update-IsMirrored fd e r h in
    let same : is_some (remove fd r) ≡ can_remove fd r = elim (Bool-cases (can_remove fd r)) [
      | inl y ↦ let (s, k, g) = remove-IsMirrored fd r h y in is_some_of s k ∙ sym y
      | inr n ↦ ap is_some (remove_refused fd r h n) ∙ sym n
    ] in
    (
      is_some_of r' u,
      (λ y. (can_remove_iff fd r).0 (sym same ∙ y), λ y. same ∙ (can_remove_iff fd r).1 y),
    )
