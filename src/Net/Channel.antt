-- ===== src/Net/Channel.antt =====
-- shero/net/Channel.h and Channel.cc: the events a file descriptor listens to. The event masks are
-- the kernel's bits. `updateToLoop` hands the channel to the poller: the functions here change the
-- mask, and the caller passes the channel on. What a channel is tied to is a flag.
use Prim.Native.Nat.{bit_and, bit_or}
use shero.Common.{
  ℕ, ◌-◌, ◌^◌, Bool, true, false, not, ◌&&◌, Option, none, some, List, [], ◌∷◌, ◌++◌, ◌==◌,
  if◌then◌else◌,
}

abbrev pub epoll_in : ℕ
epoll_in = 1

abbrev pub epoll_pri : ℕ
epoll_pri = 2

abbrev pub epoll_out : ℕ
epoll_out = 4

abbrev pub epoll_err : ℕ
epoll_err = 8

abbrev pub epoll_hup : ℕ
epoll_hup = 16

-- `IOEvent::READ`, the two bits of reading.
abbrev pub read_event : ℕ
read_event = 3

abbrev pub write_event : ℕ
write_event = 4

pub data ChannelStatus : Type 0 where
  new add delete : ChannelStatus

pub record Channel : Type 0 where
  pub fd : ℕ
  pub event : ℕ
  pub revents : ℕ
  pub status : ChannelStatus

unfoldable pub new_channel : ℕ → Channel
new_channel fd = record { fd = fd; event = 0; revents = 0; status = new }

-- `mask & bits` as a test.
abbrev pub has : ℕ → ℕ → Bool
has mask bits = not (bit_and mask bits == 0)

-- `m_event |= event`, for READ and WRITE; another event changes nothing and is not passed on.
unfoldable pub add_listen_events : ℕ → Channel → Channel
add_listen_events event c =
    if event == read_event
    then record c { event = bit_or c.event read_event }
    else if event == write_event
    then record c { event = bit_or c.event write_event }
    else c

-- `m_event &= ~event` on the 32 bits of the mask.
unfoldable pub del_listen_events : ℕ → Channel → Channel
del_listen_events event c =
    if event == read_event
    then record c { event = bit_and c.event (2 ^ 32 - 1 - read_event) }
    else if event == write_event
    then record c { event = bit_and c.event (2 ^ 32 - 1 - write_event) }
    else c

unfoldable pub del_all_listen_events : Channel → Channel
del_all_listen_events c = record c { event = 0 }

abbrev pub is_reading : Channel → Bool
is_reading c = has c.event read_event

abbrev pub is_writing : Channel → Bool
is_writing c = has c.event write_event

abbrev pub is_none_event : Channel → Bool
is_none_event c = c.event == 0

-- The callbacks that `handleEventWithGuard` makes.
pub data Callback : Type 0 where
  close_callback error_callback read_callback write_callback : Callback

abbrev pub when : Bool → Callback → List Callback
when true cb = cb ∷ []
when false cb = []

-- `handleEventWithGuard`, all callbacks set.
unfoldable pub handle_event_with_guard : ℕ → List Callback
handle_event_with_guard revents =
    when (has revents epoll_hup && not (has revents epoll_in)) close_callback
    ++ (when (has revents epoll_err) error_callback
        ++ (when (has revents read_event) read_callback
            ++ when (has revents epoll_out) write_callback))

-- `handleEvent`, by whether the channel is tied and whether what it is tied to is still there.
unfoldable pub handle_event : Bool → Bool → ℕ → List Callback
unfolding handle_event_with_guard
handle_event tied alive revents =
    if tied
    then if alive then handle_event_with_guard revents else []
    else handle_event_with_guard revents

abbrev pub o_nonblock : ℕ
o_nonblock = 2048

-- `setNonBlock`: the flags that `F_SETFL` is given, if it is called.
unfoldable pub set_non_block : ℕ → Option ℕ
set_non_block flags = if has flags o_nonblock then none else some (bit_or flags o_nonblock)
