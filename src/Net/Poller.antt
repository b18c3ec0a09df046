-- ===== src/Net/Poller.antt =====
-- `updateChannel` and `removeChannel` of shero/net/EPollPoller.cc: how a channel's status follows
-- the kernel's interest list. `m_channelMap` is the list of its file descriptors; a descriptor
-- belongs to one channel, so that the asserts on the mapped pointer hold with the descriptor.
-- What `epoll_wait` reports is an argument; the result of `epoll_ctl` is only logged.
pub mod Synced
pub mod Waits
use shero.Common.{
  ℕ, Bool, true, false, not, ◌&&◌, ◌||◌, Option, none, some, List, [], ◌∷◌, ◌==◌, if◌then◌else◌,
  ◌*◌, ◌++◌, leb, length,
}
use shero.Net.Channel.{Channel, ChannelStatus, new, add, delete, is_none_event}

-- A call of `epoll_ctl`, with the event mask.
pub data Ctl : Type 0 where
  ctl_add ctl_mod : ℕ → Ctl
  ctl_del : Ctl

abbrev pub ChannelMap : Type 0
ChannelMap = List ℕ

unfoldable pub in_map : ℕ → ChannelMap → Bool
in_map fd [] = false
in_map fd (x ∷ xs) = x == fd || in_map fd xs

unfoldable pub erase_fd : ℕ → ChannelMap → ChannelMap
erase_fd fd [] = []
erase_fd fd (x ∷ xs) = let rest = erase_fd fd xs in if x == fd then rest else x ∷ rest

-- `updateChannel`, by the status; `none` where an assert fails.
unfoldable pub update_in :
    ChannelStatus → ChannelMap → Channel → Option (ChannelMap × Channel × Ctl)
update_in new m c =
    if in_map c.fd m then none else some (c.fd ∷ m, record c { status = add }, ctl_add c.event)
update_in delete m c =
    if in_map c.fd m then some (m, record c { status = add }, ctl_add c.event) else none
update_in add m c =
    if not (in_map c.fd m)
    then none
    else if is_none_event c
    then some (m, record c { status = delete }, ctl_del)
    else some (m, record c { status = add }, ctl_mod c.event)

unfoldable pub update_channel : ChannelMap → Channel → Option (ChannelMap × Channel × Ctl)
unfolding update_in
update_channel m c = update_in c.status m c

-- `removeChannel`, by the status, where the asserts before it hold.
unfoldable pub remove_in :
    ChannelStatus → ChannelMap → Channel → Option (ChannelMap × Channel × List Ctl)
remove_in new m c = none
remove_in add m c = some (erase_fd c.fd m, record c { status = new }, ctl_del ∷ [])
remove_in delete m c = some (erase_fd c.fd m, record c { status = new }, [])

unfoldable pub remove_channel : ChannelMap → Channel → Option (ChannelMap × Channel × List Ctl)
unfolding remove_in
remove_channel m c = if in_map c.fd m && is_none_event c then remove_in c.status m c else none

-- `fillActiveChannels`: the channels of the first `numEvents` events, with what was reported.
unfoldable pub fill_active_channels : List (Channel × ℕ) → List Channel → List Channel
fill_active_channels [] active = active
fill_active_channels ((c, events) ∷ reported) active =
    fill_active_channels reported (active ++ (record c { revents = events } ∷ []))

-- `poll`, on the size of `m_events` and what `epoll_wait` reports, `none` for an error; `none` where an
-- assert fails. The array grows where the number of events is `sizeof(m_events)`, the size of the vector
-- object and not its length.
unfoldable pub poll : ℕ → ℕ → Option (List (Channel × ℕ)) → List Channel → Option (ℕ × List Channel)
unfolding fill_active_channels
poll vector_size size none active = some (size, active)
poll vector_size size (some []) active = some (size, active)
poll vector_size size (some (e ∷ reported)) active =
    let n = length (e ∷ reported) in
    let filled = fill_active_channels (e ∷ reported) active in
    if leb n size then some (if n == vector_size then size * 2 else size, filled) else none

-- `m_epollEventSize`.
abbrev pub epoll_event_size : ℕ
epoll_event_size = 16
