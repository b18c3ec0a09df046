-- ===== src/Tcp/Connection.antt =====
-- shero/net/tcp/TcpConnection.h and TcpConnection.cc: one connection. What a method calls is the
-- list of its effects in order: accepted bytes of `::write`, `::shutdown`, the three callbacks, the
-- functions queued in the loop, and the channel handed to the poller. Effects of code that runs in a
-- callback are not part of the method. All methods but `send`, `shutdown` and `forceClose` run in the
-- loop's thread, as they assert. `tie` and the logging are left out.
pub mod Stream
pub mod Errors
pub mod Session
use shero.Common.{
  ℕ, ◌-◌, Bool, true, false, not, ◌&&◌, ◌||◌, Option, none, some, List, [], ◌∷◌, ◌++◌, ltb, ◌==◌,
  if◌then◌else◌, length, take, drop,
}
use shero.Common.Bytes.{Bytes}
use shero.Buffer.{
  Buffer, new, initial_size, SysResult, failed, done, size_max, readable_bytes, to_string, retrieve,
  write_len, read_fd, write_fd,
}
use shero.Net.Channel.{
  Channel, new_channel, read_event, write_event, add_listen_events, del_listen_events,
  del_all_listen_events, is_writing,
}

pub data ConnectionState : Type 0 where
  disconnected connecting connected disconnecting : ConnectionState

pub record TcpConnection : Type 0 where
  pub state : ConnectionState
  pub channel : Channel
  pub input : Buffer
  pub output : Buffer
  pub write_complete_set : Bool  -- whether `m_writeCompleteCallback` is set

-- A function queued in the loop.
pub data Task : Type 0 where
  write_complete : Task
  send_task : Bytes → Task
  shutdown_task : Task
  force_close_task : Task

pub data Effect : Type 0 where
  wrote : Bytes → Effect
  shut_write : Effect
  queued : Task → Effect
  update_to_loop : Channel → Effect
  remove_from_loop : Channel → Effect
  connection_callback : ConnectionState → Effect
  close_callback : Effect
  message_callback : Buffer → Effect
  error_handled : Effect

-- The constructor.
unfoldable pub new_connection : ℕ → Bool → TcpConnection
new_connection connfd write_complete_set = record {
  state = connecting;
  channel = new_channel connfd;
  input = new initial_size;
  output = new initial_size;
  write_complete_set = write_complete_set;
}

abbrev pub is_connected : ConnectionState → Bool
is_connected connected = true
is_connected _ = false

abbrev pub is_disconnecting : ConnectionState → Bool
is_disconnecting disconnecting = true
is_disconnecting _ = false

abbrev pub is_disconnected : ConnectionState → Bool
is_disconnected disconnected = true
is_disconnected _ = false

-- A method's result; `assert_failed` where it aborts.
pub data Done : Type 0 where
  ran : TcpConnection → List Effect → Done
  assert_failed : Done

-- `connectEstablished`.
unfoldable pub connect_established : TcpConnection → Done
unfolding add_listen_events
connect_established c = elim c.state [
  | connecting ↦
      let ch = add_listen_events read_event c.channel in
      ran (record c { state = connected; channel = ch })
        (update_to_loop ch ∷ connection_callback connected ∷ [])
  | _ ↦ assert_failed
]

-- `connectDestroyed`.
unfoldable pub connect_destroyed : TcpConnection → Done
unfolding del_all_listen_events
connect_destroyed c =
    let ch = del_all_listen_events c.channel in
    if is_connected c.state
    then ran (record c { state = disconnected; channel = ch })
        (update_to_loop ch ∷ connection_callback disconnected ∷ remove_from_loop ch ∷ [])
    else ran c (remove_from_loop c.channel ∷ [])

-- `EPIPE`, `ECONNRESET`.
abbrev pub is_broken : ℕ → Bool
is_broken e = e == 32 || e == 104

abbrev pub complete_queued : Bool → List Effect
complete_queued true = queued write_complete ∷ []
complete_queued false = []

-- The end of `sendInLoop`: what is left goes to the output buffer, which is then to be written.
unfoldable pub keep_rest : Bytes → TcpConnection → TcpConnection × List Effect
keep_rest [] c = (c, [])
keep_rest (x ∷ rest) c =
    let c' = record c { output = write_len (x ∷ rest) c.output } in
    if is_writing c.channel
    then (c', [])
    else let ch = add_listen_events write_event c.channel in
      (record c' { channel = ch }, update_to_loop ch ∷ [])

-- The direct `::write` of `sendInLoop`.
unfoldable pub write_directly : SysResult ℕ → Bytes → TcpConnection → TcpConnection × List Effect
unfolding keep_rest
write_directly (done n) msg c =
    let kept = keep_rest (drop n msg) c in
    (
      kept.0,
      wrote (take n msg)
          ∷ ((if length msg - n == 0 then complete_queued c.write_complete_set else []) ++ kept.1),
    )
write_directly (failed e) msg c =
    let kept = keep_rest msg c in if is_broken e then (c, []) else kept

-- `sendInLoop`, with what `::write` gives for the bytes offered.
unfoldable pub send_in_loop :
    (Bytes → SysResult ℕ) → Bytes → TcpConnection → TcpConnection × List Effect
unfolding write_directly keep_rest
send_in_loop write msg c =
    if is_disconnected c.state
    then (c, [])
    else if not (is_writing c.channel) && readable_bytes c.output == 0
    then write_directly (write msg) msg c
    else keep_rest msg c

-- `send`, from the loop's thread or another.
unfoldable pub send :
    (Bytes → SysResult ℕ) → Bool → Bytes → TcpConnection → TcpConnection × List Effect
send write in_loop msg c =
    if not (is_connected c.state)
    then (c, [])
    else if in_loop
    then send_in_loop write msg c
    else (c, queued (send_task msg) ∷ [])

-- `shutdownInLoop`.
unfoldable pub shutdown_in_loop : TcpConnection → List Effect
shutdown_in_loop c = if is_writing c.channel then [] else shut_write ∷ []

-- `shutdown`.
unfoldable pub shutdown : Bool → TcpConnection → TcpConnection × List Effect
unfolding shutdown_in_loop
shutdown in_loop c =
    let c' = record c { state = disconnecting } in
    if not (is_connected c.state)
    then (c, [])
    else if in_loop
    then (c', shutdown_in_loop c')
    else (c', queued shutdown_task ∷ [])

-- `handleClose`.
unfoldable pub handle_close : TcpConnection → Done
handle_close c =
    let ch = del_all_listen_events c.channel in
    if is_connected c.state || is_disconnecting c.state
    then ran (record c { state = disconnected; channel = ch })
        (update_to_loop ch ∷ connection_callback disconnected ∷ close_callback ∷ [])
    else assert_failed

-- `(m_state == Connected) || (m_state = Disconnecting)`: an assignment, which is always true.
abbrev pub or_assign : TcpConnection → TcpConnection
or_assign c = if is_connected c.state then c else record c { state = disconnecting }

-- `forceClose`.
unfoldable pub force_close : TcpConnection → TcpConnection × List Effect
force_close c = (record (or_assign c) { state = disconnecting }, queued force_close_task ∷ [])

-- `forceCloseInLoop`.
unfoldable pub force_close_in_loop : TcpConnection → Done
unfolding handle_close
force_close_in_loop c = handle_close (or_assign c)

-- `handleRead` behind `readFd`. The result is a `size_t`: no value of it is below 0, so that the
-- branch of the error is for none.
unfoldable pub after_read : ℕ → TcpConnection → Done
unfolding handle_close
after_read n c =
    let closed = handle_close c in
    if ltb 0 n
    then ran c (message_callback c.input ∷ [])
    else if n == 0
    then closed
    else ran c (error_handled ∷ [])

-- `handleRead`, with what `readv` gives for the room offered.
unfoldable pub handle_read : (ℕ → SysResult Bytes) → TcpConnection → Done
unfolding after_read
handle_read readv c =
    let (n, saved, b) = read_fd readv c.input in after_read n (record c { input = b })

-- What `handleWrite` does where the output is empty.
unfoldable pub drained : TcpConnection → TcpConnection × List Effect
drained c =
    let ch = del_listen_events write_event c.channel in
    let c' = record c { channel = ch } in
    (
      c',
      update_to_loop ch
          ∷ (complete_queued c.write_complete_set
              ++ (if is_disconnecting c.state then shutdown_in_loop c' else [])),
    )

abbrev pub accepted : SysResult ℕ → Bytes → List Effect
accepted (done n) msg = wrote (take n msg) ∷ []
accepted (failed e) msg = []

-- Behind `retrieve(n)`.
unfoldable pub after_retrieve : List Effect → TcpConnection → TcpConnection × List Effect
unfolding drained
after_retrieve wr c =
    let dr = drained c in if readable_bytes c.output == 0 then (dr.0, wr ++ dr.1) else (c, wr)

-- `handleWrite`, with what `::write` gives for the bytes offered. Its result is a `size_t`, -1 too.
unfoldable pub handle_write : (Bytes → SysResult ℕ) → TcpConnection → TcpConnection × List Effect
handle_write write c =
    let n = (write_fd write c.output).0 in
    let wr = accepted (write (to_string c.output)) (to_string c.output) in
    if not (is_writing c.channel)
    then (c, [])
    else if ltb 0 n
    then after_retrieve wr (record c { output = retrieve n c.output })
    else (c, wr)
