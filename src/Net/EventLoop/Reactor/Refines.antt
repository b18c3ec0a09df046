-- ===== src/Net/EventLoop/Reactor/Refines.antt =====
-- The map of the poller and the kernel's interest list are what the channels say.
use shero.Common.{
  ℕ, ◌≡◌, refl, sym, ap, ◌∙◌, Bool, true, false, Option, none, some, [], ◌∷◌, ◌==◌, ==_iff, arith,
  Bool-cases, inl, inr,
}
use shero.Net.Channel.{
  Channel, ChannelStatus, new, add, delete, is_none_event, add_listen_events, del_listen_events,
  del_all_listen_events,
}
use shero.Net.Poller.{
  Ctl, ctl_add, ctl_mod, ctl_del, ChannelMap, in_map, erase_fd, update_in, update_channel,
}
use shero.Net.EventLoop.Reactor.{
  Reactor, put, epoll_ctl, control, Change, add_read, add_write, del_read, del_write, del_all,
  change, update,
}

-- Whether a channel of this status is in the poller's map, and its entry in the interest list.
abbrev pub is_mapped : ChannelStatus → Bool
is_mapped new = false
is_mapped add = true
is_mapped delete = true

abbrev pub entry : ChannelStatus → ℕ → Option ℕ
entry new events = none
entry add events = some events
entry delete events = none

pub record Fits (fd : ℕ) (r : Reactor) : Type 0 where
  pub own : (r.channel fd).fd ≡ fd
  pub mapped : in_map fd r.map ≡ is_mapped (r.channel fd).status
  pub listed : r.interest fd ≡ entry (r.channel fd).status (r.channel fd).event

pub record IsMirrored (r : Reactor) : Type 0 where
  pub fits : (fd : ℕ) → Fits fd r
  pub no_errors : r.errors ≡ 0

in_map_other : (k fd : ℕ) (m : ChannelMap) → (k == fd) ≡ false → in_map k (fd ∷ m) ≡ in_map k m
unfolding in_map
in_map_other k fd m h = ground (arith, h)

pub erase_fd_other :
    (k fd : ℕ) (m : ChannelMap) → (k == fd) ≡ false → in_map k (erase_fd fd m) ≡ in_map k m
unfolding in_map erase_fd
erase_fd_other k fd [] h = refl
erase_fd_other k fd (x ∷ xs) h = ground (arith, erase_fd_other k fd xs h)

pub erase_fd_self : (fd : ℕ) (m : ChannelMap) → in_map fd (erase_fd fd m) ≡ false
unfolding in_map erase_fd
erase_fd_self fd [] = refl
erase_fd_self fd (x ∷ xs) = ground (arith, erase_fd_self fd xs)

-- An update that went through, seen from its channel and from the others.
record Updated (m : ChannelMap) (c : Channel) (old : ℕ) : Type 0 where
  map : ChannelMap
  channel : Channel
  ctl : Ctl
  result : update_in c.status m c ≡ some (map, channel, ctl)
  own : channel.fd ≡ c.fd
  mapped : in_map c.fd map ≡ is_mapped channel.status
  others : (k : ℕ) → (k == c.fd) ≡ false → in_map k map ≡ in_map k m
  listed : epoll_ctl ctl (entry c.status old) ≡ some (entry channel.status channel.event)

in_map_self : (fd : ℕ) (m : ChannelMap) → in_map fd (fd ∷ m) ≡ true
unfolding in_map
in_map_self fd m = ground arith

update_in-Updated :
    (s : ChannelStatus) (m : ChannelMap) (c : Channel) (old : ℕ)
    → c.status ≡ s
    → in_map c.fd m ≡ is_mapped s
    → Updated m c old
unfolding update_in
update_in-Updated new m c old e h = record {
  map = c.fd ∷ m;
  channel = record c { status = add };
  ctl = ctl_add c.event;
  result = rw (e, h) refl;
  own = refl;
  mapped = in_map_self c.fd m;
  others = λ k n. in_map_other k c.fd m n;
  listed = rw e refl;
}
update_in-Updated delete m c old e h = record {
  map = m;
  channel = record c { status = add };
  ctl = ctl_add c.event;
  result = rw (e, h) refl;
  own = refl;
  mapped = h;
  others = λ k n. refl;
  listed = rw e refl;
}
update_in-Updated add m c old e h = elim (Bool-cases (is_none_event c)) [
  | inl quiet ↦ record {
    map = m;
    channel = record c { status = delete };
    ctl = ctl_del;
    result = rw (e, h, quiet) refl;
    own = refl;
    mapped = h;
    others = λ k n. refl;
    listed = rw e refl;
  }
  | inr busy ↦ record {
    map = m;
    channel = record c { status = add };
    ctl = ctl_mod c.event;
    result = rw (e, h, busy) refl;
    own = refl;
    mapped = h;
    others = λ k n. refl;
    listed = rw e refl;
  }
]

-- A change keeps the descriptor and the status.
change_keeps :
    (e : Change) (c : Channel) → ((change e c).fd ≡ c.fd) × ((change e c).status ≡ c.status)
unfolding change add_listen_events del_listen_events del_all_listen_events
change_keeps add_read c = (refl, refl)
change_keeps add_write c = (refl, refl)
change_keeps del_read c = (refl, refl)
change_keeps del_write c = (refl, refl)
change_keeps del_all c = (refl, refl)

pub put_self {ℓ} : {A : Type ℓ} (fd : ℕ) (a : A) (f : ℕ → A) → put fd a f fd ≡ a
put_self fd a f = rw ((==_iff fd fd).1 refl) refl

-- The reactor with a channel in place of its own, when the kernel took the call for it.
pub placed-Fits :
    (fd : ℕ) (r : Reactor) (m : ChannelMap) (c : Channel) (i : Option ℕ)
    → IsMirrored r
    → c.fd ≡ fd
    → in_map fd m ≡ is_mapped c.status
    → ((k : ℕ) → (k == fd) ≡ false → in_map k m ≡ in_map k r.map)
    → i ≡ entry c.status c.event
    → IsMirrored
        (record r { map = m; channel = put fd c r.channel; interest = put fd i r.interest })
placed-Fits fd r m c i h own mapped others listed = record {
  fits = λ k. elim (Bool-cases (k == fd)) [
    | inl same ↦
        let e = (==_iff k fd).0 same in
        record {
          own = rw same (own ∙ sym e);
          mapped = rw same (ap (λ j. in_map j m) e ∙ mapped);
          listed = rw same listed;
        }
    | inr apart ↦
        let f = h.fits k in
        record {
          own = rw apart f.own;
          mapped = rw apart (others k apart ∙ f.mapped);
          listed = rw apart f.listed;
        }
  ];
  no_errors = h.no_errors;
}

-- A change of a channel always goes through, and the kernel takes the call for it.
pub update-IsMirrored :
    (fd : ℕ) (e : Change) (r : Reactor)
    → IsMirrored r
    → (r' : Reactor) × (update fd e r ≡ some r') × IsMirrored r'
unfolding update update_channel control
update-IsMirrored fd e r h =
    let f = h.fits fd in
    let old = r.channel fd in
    let c = change e old in
    let k = change_keeps e old in
    let own : c.fd ≡ fd = k.0 ∙ f.own in
    let u =
      update_in-Updated c.status r.map c old.event refl
        (ap (λ j. in_map j r.map) own ∙ f.mapped ∙ ap is_mapped (sym (k.1))) in
    let entered_now : epoll_ctl u.ctl (r.interest fd)
        ≡ some (entry u.channel.status u.channel.event) =
      ap (epoll_ctl u.ctl) (f.listed ∙ ap (λ s. entry s old.event) (sym (k.1))) ∙ u.listed in
    (
      record r {
        map = u.map;
        channel = put fd u.channel r.channel;
        interest = put fd (entry u.channel.status u.channel.event) r.interest;
      },
      rw (u.result, entered_now) refl,
      placed-Fits fd r u.map u.channel _ h (u.own ∙ own)
          (ap (λ j. in_map j u.map) (sym own) ∙ u.mapped)
          (λ j n. u.others j (ap (λ i. j == i) own ∙ n)) refl,
    )
