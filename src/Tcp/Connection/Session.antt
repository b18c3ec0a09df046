-- ===== src/Tcp/Connection/Session.antt =====
-- A connection of shero/net/tcp/TcpConnection.cc with the functions queued in its loop, and the users
-- of the connection in the loop's thread and in others. A step is a call of `send`, `shutdown` or
-- `forceClose`, the run of a queued function by doPendingFunctors of shero/net/EventLoop.cc, an event of
-- the channel, or the call of `connectEstablished` or `connectDestroyed`. The session keeps what was
-- sent, taken and lost beside it. Reads change the input buffer only and are left out; what a callback
-- calls is a step of its own.
pub mod Moves
pub mod Ends
pub mod Writes
pub mod InOrder
pub mod Sends
pub mod Runs
pub mod Kept
pub mod Early
use shero.Common.{
  ℕ, ◌<◌, ◌≡◌, Bool, true, false, not, ◌&&◌, ◌||◌, List, [], ◌∷◌, ◌++◌, if◌then◌else◌, ltb,
}
use shero.Common.Bytes.{Bytes}
use shero.Buffer.{SysResult, failed, done, to_string}
use shero.Net.Channel.{is_writing}
use shero.Tcp.Connection.{
  TcpConnection, ConnectionState, disconnecting, disconnected, Task, write_complete, send_task,
  shutdown_task, force_close_task, Effect, queued, shut_write, Done, ran, assert_failed,
  new_connection, is_connected, is_disconnected, send, send_in_loop, shutdown, shutdown_in_loop,
  handle_write, handle_close, force_close, force_close_in_loop, connect_established,
  connect_destroyed,
}
use shero.Tcp.Connection.Stream.{written, Accepts}

-- A taken message: whether the loop's thread sent it, and its text.
pub record Session : Type 0 where
  pub conn : TcpConnection
  pub tasks : List Task  -- the functions queued in the loop
  pub accepted : Bytes  -- what the kernel accepted
  pub shut : Bool  -- whether `::shutdown` was called
  pub sent_here : List Bytes  -- by the loop's thread, while connected
  pub sent_there : List Bytes  -- by other threads, while connected
  pub taken : List (Bool × Bytes)  -- by `sendInLoop`
  pub lost : List Bytes  -- sent by other threads, and found closed by `sendInLoop`

abbrev pub new_session : TcpConnection → Session
new_session c = record {
  conn = c;
  tasks = [];
  accepted = [];
  shut = false;
  sent_here = [];
  sent_there = [];
  taken = [];
  lost = [];
}

abbrev pub queued_in : List Effect → List Task
queued_in [] = []
queued_in (queued t ∷ es) = t ∷ queued_in es
queued_in (_ ∷ es) = queued_in es

abbrev pub shuts : List Effect → Bool
shuts [] = false
shuts (shut_write ∷ es) = true
shuts (_ ∷ es) = shuts es

abbrev pub emit : Session → TcpConnection × List Effect → Session
emit s (c, es) = record s {
  conn = c;
  tasks = s.tasks ++ queued_in es;
  accepted = s.accepted ++ written es;
  shut = s.shut || shuts es;
}

abbrev pub emit_done : Session → Done → Session
emit_done s (ran c es) = emit s (c, es)
emit_done s assert_failed = s

-- `send` by the loop's thread, and by another.
unfoldable pub send_here : (Bytes → SysResult ℕ) → Bytes → Session → Session
send_here write msg s =
    let s' = emit s (send write true msg s.conn) in
    if is_connected s.conn.state
    then record s' { sent_here = s.sent_here ++ msg ∷ []; taken = s.taken ++ (true, msg) ∷ [] }
    else s'

unfoldable pub send_there : (Bytes → SysResult ℕ) → Bytes → Session → Session
send_there write msg s =
    let s' = emit s (send write false msg s.conn) in
    if is_connected s.conn.state then record s' { sent_there = s.sent_there ++ msg ∷ [] } else s'

-- Whether `sendInLoop` still takes what it is given.
abbrev pub is_open : Session → Bool
is_open s = not (is_disconnected s.conn.state) && not s.shut

-- A queued function, run in the loop.
unfoldable pub run_task : (Bytes → SysResult ℕ) → Task → Session → Session
run_task write write_complete s = s
run_task write (send_task msg) s =
    let s' = emit s (send_in_loop write msg s.conn) in
    if is_open s
    then record s' { taken = s.taken ++ (false, msg) ∷ [] }
    else record s' { lost = s.lost ++ msg ∷ [] }
run_task write shutdown_task s = emit s (s.conn, shutdown_in_loop s.conn)
run_task write force_close_task s = emit_done s (force_close_in_loop s.conn)

-- `::write` as documented: it breaks the pipe behind `::shutdown`. Before, it takes no more than it is
-- offered; of its errors those of a connection that the peer broke are left out.
abbrev pub Kernel : Bool → (Bytes → SysResult ℕ) → Type 0
Kernel shut write =
    (shut ≡ false → (xs : Bytes) → Accepts (write xs) xs)
    × (shut ≡ true → (xs : Bytes) → write xs ≡ failed 32)

-- A write event whose `::write` fails, behind which `handleWrite` empties the output, is no step here.
pub data Step : Session → Session → Type 0 where
  sends_here :
      (s : Session) (write : Bytes → SysResult ℕ) (msg : Bytes)
      → Kernel s.shut write
      → Step s (send_here write msg s)
  sends_there :
      (s : Session) (write : Bytes → SysResult ℕ) (msg : Bytes) → Step s (send_there write msg s)
  shuts_down : (s : Session) (in_loop : Bool) → Step s (emit s (shutdown in_loop s.conn))
  runs :
      (s : Session) (write : Bytes → SysResult ℕ) (t : Task) (rest : List Task)
      → Kernel s.shut write
      → s.tasks ≡ t ∷ rest
      → Step s (run_task write t (record s { tasks = rest }))
  writes :
      (s : Session) (write : Bytes → SysResult ℕ) (n : ℕ)
      → is_writing s.conn.channel ≡ true
      → write (to_string s.conn.output) ≡ done n
      → 0 < n
      → Step s (emit s (handle_write write s.conn))
  closes :
      (s : Session) (c : TcpConnection) (es : List Effect)
      → handle_close s.conn ≡ ran c es
      → Step s (emit s (c, es))
  forces :
      (s : Session) → is_disconnected s.conn.state ≡ false → Step s (emit s (force_close s.conn))
  establishes :
      (s : Session) (c : TcpConnection) (es : List Effect)
      → connect_established s.conn ≡ ran c es
      → Step s (emit s (c, es))
  destroys :
      (s : Session) (c : TcpConnection) (es : List Effect)
      → connect_destroyed s.conn ≡ ran c es
      → Step s (emit s (c, es))

-- What a new connection reaches.
pub data Reach (connfd : ℕ) (write_complete_set : Bool) : Session → Type 0 where
  here : Reach connfd write_complete_set (new_session (new_connection connfd write_complete_set))
  next :
      {s t : Session}
      → Reach connfd write_complete_set s
      → Step s t
      → Reach connfd write_complete_set t
