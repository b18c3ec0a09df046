-- ===== src/Tcp/Connector.antt =====
-- shero/net/tcp/TcpConnector.h and TcpConnector.cc: a client's attempts to connect. The socket that
-- `socket` opens, the errno of `connect` and the pending error of the socket are arguments. What a
-- method calls is the list of its effects in order. Every method but `start` runs in the loop.
pub mod Delay
use shero.Common.{
  ℕ, ◌*◌, min, Bool, true, false, not, ◌&&◌, ◌||◌, List, [], ◌∷◌, ◌++◌, ◌==◌, if◌then◌else◌,
}
use shero.Net.Channel.{Channel, new_channel, write_event, add_listen_events, del_all_listen_events}

abbrev pub init_retry_delay_ms : ℕ
init_retry_delay_ms = 500

abbrev pub max_retry_delay_ms : ℕ
max_retry_delay_ms = 30000

pub data ConnectorState : Type 0 where
  disconnected connecting connected : ConnectorState

pub record TcpConnector : Type 0 where
  pub retry_delay_ms : ℕ
  pub can_retry : Bool
  pub connect_wanted : Bool  -- `m_connect`
  pub channel : Channel
  pub state : ConnectorState

pub data Effect : Type 0 where
  closed : ℕ → Effect
  timer_added : ℕ → Effect
  update_to_loop : Channel → Effect
  remove_from_loop : Channel → Effect
  reset_queued : Effect
  new_connection : ℕ → Effect
  timer_destroyed : Effect

-- The constructor; before the first attempt there is no channel, of which nothing is read.
unfoldable pub new_connector : Bool → TcpConnector
new_connector can_retry = record {
  retry_delay_ms = init_retry_delay_ms;
  can_retry = can_retry;
  connect_wanted = false;
  channel = new_channel 0;
  state = disconnected;
}

-- `retry`: the timer runs `startInLoop` again after the delay, which then doubles up to its bound.
unfoldable pub retry : ℕ → TcpConnector → TcpConnector × List Effect
retry sockfd c =
    let c' = record c { state = disconnected } in
    if c.can_retry && c.connect_wanted
    then (
      record c' { retry_delay_ms = min (c.retry_delay_ms * 2) max_retry_delay_ms },
      closed sockfd ∷ timer_added c.retry_delay_ms ∷ [],
    )
    else (c', closed sockfd ∷ [])

-- `connecting`.
unfoldable pub start_connecting : ℕ → TcpConnector → TcpConnector × List Effect
start_connecting sockfd c =
    let ch = add_listen_events write_event (new_channel sockfd) in
    (record c { state = connecting; channel = ch }, update_to_loop ch ∷ [])

-- 0, `EINPROGRESS`, `EINTR`, `EISCONN`.
abbrev pub under_way : ℕ → Bool
under_way e = e == 0 || e == 115 || e == 4 || e == 106

-- `EAGAIN`, `EADDRINUSE`, `EADDRNOTAVAIL`, `ECONNREFUSED`, `ENETUNREACH`.
abbrev pub worth_retrying : ℕ → Bool
worth_retrying e = e == 11 || e == 98 || e == 99 || e == 111 || e == 101

-- `connect`, with the socket and the errno.
unfoldable pub connect : ℕ → ℕ → TcpConnector → TcpConnector × List Effect
unfolding retry start_connecting
connect sockfd errno c =
    let going = start_connecting sockfd c in
    let again = retry sockfd c in
    if under_way errno
    then going
    else if worth_retrying errno
    then again
    else (c, closed sockfd ∷ [])

abbrev pub is_disconnected : ConnectorState → Bool
is_disconnected disconnected = true
is_disconnected _ = false

abbrev pub is_connecting : ConnectorState → Bool
is_connecting connecting = true
is_connecting _ = false

-- `startInLoop`.
unfoldable pub start_in_loop : ℕ → ℕ → TcpConnector → TcpConnector × List Effect
unfolding connect
start_in_loop sockfd errno c =
    let r = connect sockfd errno c in
    if is_disconnected c.state && c.connect_wanted then r else (c, [])

-- `start`, called in the loop's thread.
unfoldable pub start : ℕ → ℕ → TcpConnector → TcpConnector × List Effect
unfolding start_in_loop
start sockfd errno c = start_in_loop sockfd errno (record c { connect_wanted = true })

-- `restart`.
unfoldable pub restart : ℕ → ℕ → TcpConnector → TcpConnector × List Effect
unfolding start_in_loop
restart sockfd errno c =
    start_in_loop sockfd errno (record c {
      state = disconnected;
      connect_wanted = true;
      retry_delay_ms = init_retry_delay_ms;
    })

-- `removeAndResetChannel`: the channel goes, and its socket stays.
unfoldable pub remove_and_reset_channel : TcpConnector → ℕ × TcpConnector × List Effect
remove_and_reset_channel c =
    let ch = del_all_listen_events c.channel in
    (ch.fd, record c { channel = ch }, update_to_loop ch ∷ remove_from_loop ch ∷ reset_queued ∷ [])

-- `handleWrite`, with the pending error of the socket.
unfoldable pub handle_write : ℕ → TcpConnector → TcpConnector × List Effect
unfolding remove_and_reset_channel retry
handle_write err c =
    let (sockfd, c', es) = remove_and_reset_channel c in
    let again = retry sockfd c' in
    let taken = if c.connect_wanted then new_connection sockfd else closed sockfd in
    if not (is_connecting c.state)
    then (c, [])
    else if not (err == 0)
    then (again.0, es ++ again.1)
    else (record c' { state = connected }, es ++ (taken ∷ timer_destroyed ∷ []))

-- `handleError`: the error is only logged.
unfoldable pub handle_error : TcpConnector → TcpConnector × List Effect
unfolding remove_and_reset_channel retry
handle_error c =
    let (sockfd, c', es) = remove_and_reset_channel c in
    let again = retry sockfd c' in
    if is_connecting c.state then (again.0, es ++ again.1) else (c, [])
