-- ===== src/Net/EventLoop/Reactor.antt =====
-- The channels of a loop: `updateChannel`, `removeChannel`, `hasChannel` and the rounds of `loop` of
-- shero/net/EventLoop.cc, with the poller of shero/net/EPollPoller.cc below and the kernel's interest list
-- below that. A descriptor belongs to one channel. All of it runs in the loop's thread.
pub mod Refines
pub mod Removes
pub mod Rounds
use shero.Common.{
  ℕ, suc, ◌+◌, ◌≡◌, ◌≢◌, Bool, true, false, not, ◌&&◌, ◌||◌, Option, none, some, List, [], ◌∷◌,
  ◌++◌, ◌==◌, if◌then◌else◌, All,
}
use shero.Net.Channel.{
  Channel, new_channel, read_event, write_event, add_listen_events, del_listen_events,
  del_all_listen_events,
}
use shero.Net.Poller.{
  Ctl, ctl_add, ctl_mod, ctl_del, ChannelMap, in_map, update_channel, remove_channel,
}

-- `errors` counts the refusals of `epoll_ctl`, which are only logged.
pub record Reactor : Type 0 where
  pub channel : ℕ → Channel
  pub map : ChannelMap
  pub interest : ℕ → Option ℕ  -- the kernel's list: the mask of each descriptor in it
  pub errors : ℕ
  pub active : List ℕ  -- `m_activeChannels`
  pub current : Option ℕ  -- `m_currentActiveChannel`
  pub handling : Bool  -- `m_eventHandling`

abbrev pub put {ℓ} : {A : Type ℓ} → ℕ → A → (ℕ → A) → ℕ → A
put fd a f k = if k == fd then a else f k

-- Before any channel is registered.
unfoldable pub new_reactor : Reactor
new_reactor = record {
  channel = new_channel;
  map = [];
  interest = λ fd. none;
  errors = 0;
  active = [];
  current = none;
  handling = false;
}

-- What `epoll_ctl` documents: the entry of the descriptor afterwards, or a refusal.
abbrev pub epoll_ctl : Ctl → Option ℕ → Option (Option ℕ)
epoll_ctl (ctl_add events) none = some (some events)
epoll_ctl (ctl_add events) (some old) = none
epoll_ctl (ctl_mod events) none = none
epoll_ctl (ctl_mod events) (some old) = some (some events)
epoll_ctl ctl_del none = none
epoll_ctl ctl_del (some old) = some none

abbrev pub entered : ℕ → Option (Option ℕ) → Reactor → Reactor
entered fd none r = record r { errors = suc r.errors }
entered fd (some entry) r = record r { interest = put fd entry r.interest }

-- `EPollPoller::update`.
unfoldable pub control : ℕ → Ctl → Reactor → Reactor
control fd ctl r = entered fd (epoll_ctl ctl (r.interest fd)) r

unfoldable pub control_all : ℕ → List Ctl → Reactor → Reactor
unfolding control
control_all fd [] r = r
control_all fd (ctl ∷ ctls) r = control_all fd ctls (control fd ctl r)

-- What a caller asks of a channel.
pub data Change : Type 0 where
  add_read add_write del_read del_write del_all : Change

unfoldable pub change : Change → Channel → Channel
unfolding add_listen_events del_listen_events del_all_listen_events
change add_read c = add_listen_events read_event c
change add_write c = add_listen_events write_event c
change del_read c = del_listen_events read_event c
change del_write c = del_listen_events write_event c
change del_all c = del_all_listen_events c

abbrev pub updated : ℕ → Option (ChannelMap × Channel × Ctl) → Reactor → Option Reactor
updated fd none r = none
updated fd (some (m, c, ctl)) r =
    some (control fd ctl (record r { map = m; channel = put fd c r.channel }))

-- A change of a channel and `updateChannel`; `none` where an assert fails.
unfoldable pub update : ℕ → Change → Reactor → Option Reactor
update fd e r = updated fd (update_channel r.map (change e (r.channel fd))) r

abbrev pub is_at : Option ℕ → ℕ → Bool
is_at none fd = false
is_at (some k) fd = k == fd

-- The assert of `removeChannel` while events are handled.
abbrev pub may_remove : ℕ → Reactor → Bool
may_remove fd r = not r.handling || (is_at r.current fd || not (in_map fd r.active))

abbrev pub removed : ℕ → Option (ChannelMap × Channel × List Ctl) → Reactor → Option Reactor
removed fd none r = none
removed fd (some (m, c, ctls)) r =
    some (control_all fd ctls (record r { map = m; channel = put fd c r.channel }))

-- `removeChannel`.
unfoldable pub remove : ℕ → Reactor → Option Reactor
remove fd r =
    let result = removed fd (remove_channel r.map (r.channel fd)) r in
    if may_remove fd r then result else none

-- `hasChannel`.
unfoldable pub has_channel : ℕ → Reactor → Bool
has_channel fd r = in_map fd r.map

-- `poll`: each reported channel becomes active, with its events.
unfoldable pub activate : List (ℕ × ℕ) → Reactor → Reactor
activate [] r = r
activate ((fd, events) ∷ reported) r = activate reported (record r {
  active = r.active ++ fd ∷ [];
  channel = put fd (record (r.channel fd) { revents = events }) r.channel;
})

-- The steps of the loop's thread: a round's beginning, its next channel and its end, and what handlers and
-- pending functions do to channels.
pub data Step (r : Reactor) : Reactor → Type 0 where
  polls :
      (reported : List (ℕ × ℕ))
      → r.handling ≡ false
      → All (λ e. r.interest (e.0) ≢ none) reported
      → Step r (record (activate reported (record r { active = [] })) { handling = true })
  handles :
      (fd : ℕ)
      → r.handling ≡ true
      → in_map fd r.active ≡ true
      → Step r (record r { current = some fd })
  finishes : r.handling ≡ true → Step r (record r { current = none; handling = false })
  updates : (fd : ℕ) (e : Change) (r' : Reactor) → update fd e r ≡ some r' → Step r r'
  removes : (fd : ℕ) (r' : Reactor) → remove fd r ≡ some r' → Step r r'

pub data Reach : Reactor → Type 0 where
  here : Reach new_reactor
  next : {s t : Reactor} → Reach s → Step s t → Reach t
