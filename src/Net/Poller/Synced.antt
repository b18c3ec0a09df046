-- ===== src/Net/Poller/Synced.antt =====
-- The status of a channel agrees with the poller's map and with the kernel's interest list.
use shero.Common.{
  ℕ, ◌≡◌, ◌≢◌, refl, Bool, true, false, Option, none, some, List, [], ◌∷◌, ◌&&◌, not, arith,
  Bool-cases, inl, inr,
}
use shero.Net.Channel.{Channel, ChannelStatus, new, add, delete, is_none_event}
use shero.Net.Poller.{
  Ctl, ctl_add, ctl_mod, ctl_del, ChannelMap, in_map, erase_fd, update_in, update_channel,
  remove_in, remove_channel,
}

-- What `epoll_ctl` documents for a descriptor that is in the interest list (`true`) or not: adding
-- one that is there fails, and so do changing and deleting one that is not.
abbrev pub accepts : Ctl → Bool → Option Bool
accepts (ctl_add events) false = some true
accepts (ctl_add events) true = none
accepts (ctl_mod events) true = some true
accepts (ctl_mod events) false = none
accepts ctl_del true = some false
accepts ctl_del false = none

abbrev pub accepts_all : List Ctl → Bool → Option Bool
accepts_all [] k = some k
accepts_all (c ∷ cs) k = elim (accepts c k) [ none ↦ none | some k' ↦ accepts_all cs k' ]

-- A new channel is in neither, an added one in both, a deleted one in the map only.
abbrev pub Agrees : ChannelStatus → Bool → Bool → Type 0
Agrees new mapped listed = (mapped ≡ false) × (listed ≡ false)
Agrees add mapped listed = (mapped ≡ true) × (listed ≡ true)
Agrees delete mapped listed = (mapped ≡ true) × (listed ≡ false)

abbrev pub IsSynced : ChannelMap → Channel → Bool → Type 0
IsSynced m c listed = Agrees c.status (in_map c.fd m) listed

-- The update went through: no assert failed and the kernel took the call.
pub record Updated (s : ChannelStatus) (m : ChannelMap) (c : Channel) (listed : Bool) : Type 0 where
  pub map : ChannelMap
  pub channel : Channel
  pub ctl : Ctl
  pub now : Bool
  pub result : update_in s m c ≡ some (map, channel, ctl)
  pub taken : accepts ctl listed ≡ some now
  pub synced : IsSynced map channel now
  pub kept : now ≡ not (listed && is_none_event c)

in_map-head : (fd : ℕ) (m : ChannelMap) → in_map fd (fd ∷ m) ≡ true
unfolding in_map
in_map-head fd m = ground arith

update_in-Updated :
    (s : ChannelStatus) (m : ChannelMap) (c : Channel) (listed : Bool)
    → Agrees s (in_map c.fd m) listed
    → Updated s m c listed
unfolding update_in
update_in-Updated new m c listed (mapped, l) = record {
  map = c.fd ∷ m;
  channel = record c { status = add };
  ctl = ctl_add c.event;
  now = true;
  result = rw mapped refl;
  taken = rw l refl;
  synced = (in_map-head c.fd m, refl);
  kept = rw l refl;
}
update_in-Updated delete m c listed (mapped, l) = record {
  map = m;
  channel = record c { status = add };
  ctl = ctl_add c.event;
  now = true;
  result = rw mapped refl;
  taken = rw l refl;
  synced = (mapped, refl);
  kept = rw l refl;
}
update_in-Updated add m c listed (mapped, l) = elim (Bool-cases (is_none_event c)) [
  | inl quiet ↦ record {
    map = m;
    channel = record c { status = delete };
    ctl = ctl_del;
    now = false;
    result = rw (mapped, quiet) refl;
    taken = rw l refl;
    synced = (mapped, refl);
    kept = rw (l, quiet) refl;
  }
  | inr busy ↦ record {
    map = m;
    channel = record c { status = add };
    ctl = ctl_mod c.event;
    now = true;
    result = rw (mapped, busy) refl;
    taken = rw l refl;
    synced = (mapped, refl);
    kept = rw (l, busy) refl;
  }
]

-- An update of a synced channel, with whatever events it listens to, fails no assert; the kernel
-- accepts the `epoll_ctl` call that it makes; and the channel is synced again, and in the interest
-- list unless it was there before and listens to nothing.
pub update_channel-Updated :
    (m : ChannelMap) (c : Channel) (listed : Bool)
    → IsSynced m c listed
    → (u : Updated c.status m c listed) × (update_channel m c ≡ some (u.map, u.channel, u.ctl))
unfolding update_channel
update_channel-Updated m c listed h =
    let u = update_in-Updated c.status m c listed h in (u, u.result)

in_map-erase_fd : (fd : ℕ) (m : ChannelMap) → in_map fd (erase_fd fd m) ≡ false
unfolding in_map erase_fd
in_map-erase_fd fd [] = refl
in_map-erase_fd fd (x ∷ xs) = ground (arith, in_map-erase_fd fd xs)

remove_in-IsSynced :
    (s : ChannelStatus) (m : ChannelMap) (c : Channel) (listed : Bool)
    → Agrees s (in_map c.fd m) listed
    → s ≢ new
    → (ctls : List Ctl) × (remove_in s m c
        ≡ some (erase_fd c.fd m, record c { status = new }, ctls))
      × (accepts_all ctls listed ≡ some false)
unfolding remove_in
remove_in-IsSynced new m c listed h other = absurd (other refl)
remove_in-IsSynced add m c listed (mapped, l) other = (ctl_del ∷ [], refl, rw l refl)
remove_in-IsSynced delete m c listed (mapped, l) other = ([], refl, rw l refl)

-- In the map where the status is not `NEW`.
Agrees-mapped :
    (s : ChannelStatus) (mapped listed : Bool) → Agrees s mapped listed → s ≢ new → mapped ≡ true
Agrees-mapped new mapped listed h other = absurd (other refl)
Agrees-mapped add mapped listed h other = h.0
Agrees-mapped delete mapped listed h other = h.0

-- Removing a synced channel that is not new and listens to nothing fails no assert; the kernel
-- accepts the `epoll_ctl` calls, at most one; and afterwards the channel is new, in neither the map
-- nor the interest list.
pub remove_channel-IsSynced :
    (m : ChannelMap) (c : Channel) (listed : Bool)
    → IsSynced m c listed
    → c.status ≢ new
    → is_none_event c ≡ true
    → (ctls : List Ctl) × (remove_channel m c
        ≡ some (erase_fd c.fd m, record c { status = new }, ctls))
      × (accepts_all ctls listed ≡ some false)
      × IsSynced (erase_fd c.fd m) (record c { status = new }) false
unfolding remove_channel
remove_channel-IsSynced m c listed h other quiet =
    let (ctls, e, k) = remove_in-IsSynced c.status m c listed h other in
    (
      ctls,
      rw (Agrees-mapped c.status (in_map c.fd m) listed h other, quiet) e,
      k,
      (in_map-erase_fd c.fd m, refl),
    )
