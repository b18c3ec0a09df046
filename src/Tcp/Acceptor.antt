-- ===== src/Tcp/Acceptor.antt =====
-- shero/net/tcp/TcpAcceptor.cc: the listening socket. What `Socket::listen` and `Socket::accept` give
-- is an argument. Every method runs in the loop's thread, as it asserts.
use shero.Common.{ℕ, Bool, true, false, Option, none, some, if◌then◌else◌}
use shero.Buffer.{SysResult, failed, done}
use shero.Net.Channel.{Channel, new_channel, read_event, add_listen_events}

pub record TcpAcceptor : Type 0 where
  pub listening : Bool
  pub channel : Channel

-- What comes of a connection that is ready.
pub data Accepted : Type 0 where
  handed_over : ℕ → Accepted
  closed : ℕ → Accepted
  nothing : Accepted

-- The constructor, with the listening socket.
unfoldable pub new_acceptor : ℕ → TcpAcceptor
new_acceptor fd = record { listening = false; channel = new_channel fd }

-- `listen`: the channel goes to the poller. `none` where `LOG_FATAL` ends the program.
unfoldable pub listen : Bool → TcpAcceptor → Option TcpAcceptor
unfolding add_listen_events
listen rt a =
    if rt
    then some (record a { listening = true; channel = add_listen_events read_event a.channel })
    else none

-- `handleRead`, with whether the callback is set.
unfoldable pub handle_read : Bool → SysResult ℕ → Accepted
handle_read has_callback (failed e) = nothing
handle_read true (done connfd) = handed_over connfd
handle_read false (done connfd) = closed connfd
