-- ===== src/Tcp/Connection/Session/Kept.antt =====
-- What every session keeps, whatever the loop, the users and the kernel do.
use shero.Common.{ℕ, refl, Bool}
use shero.Buffer.{new, initial_size, readable_bytes}
use shero.Buffer.Invariant.{new-IsValid}
use shero.Buffer.Content.{empty_new}
use shero.Net.Channel.{new_channel}
use shero.Tcp.Connection.{new_connection}
use shero.Tcp.Connection.Stream.{nothing}
use shero.Tcp.Connection.Session.{Session, Step, Reach, here, next}
use shero.Tcp.Connection.Session.Sends.{send_here-IsInOrder, send_there-IsInOrder}
use shero.Tcp.Connection.Session.Runs.{run_task-IsInOrder}
use shero.Tcp.Connection.Session.Moves.{shutdown-Moves}
use shero.Tcp.Connection.Session.Ends.{
  handle_close-Moves, force_close-Moves, connect_established-Moves, connect_destroyed-Moves,
}
use shero.Tcp.Connection.Session.Writes.{handle_write-Moves}
use shero.Tcp.Connection.Session.InOrder.{IsInOrder, emit-IsInOrder}

pub Step-IsInOrder : {s t : Session} → Step s t → IsInOrder s → IsInOrder t
Step-IsInOrder (Step.sends_here s write msg k) i = send_here-IsInOrder write msg s i k
Step-IsInOrder (Step.sends_there s write msg) i = send_there-IsInOrder write msg s i
Step-IsInOrder (Step.shuts_down s in_loop) i =
    emit-IsInOrder s _ _ i (shutdown-Moves in_loop s.conn i.tended)
Step-IsInOrder (Step.runs s write t rest k e) i = run_task-IsInOrder write t rest s i k e
Step-IsInOrder (Step.writes s write n w e h) i =
    emit-IsInOrder s _ _ i (handle_write-Moves write n s.conn i.tended w e h)
Step-IsInOrder (Step.closes s c es h) i = emit-IsInOrder s c es i (handle_close-Moves s.conn c es h)
Step-IsInOrder (Step.forces s d) i = emit-IsInOrder s _ _ i (force_close-Moves s.conn i.tended d)
Step-IsInOrder (Step.establishes s c es h) i =
    emit-IsInOrder s c es i (connect_established-Moves s.conn c es i.tended h)
Step-IsInOrder (Step.destroys s c es h) i =
    emit-IsInOrder s c es i (connect_destroyed-Moves s.conn c es i.tended h)

-- In every state that a new connection reaches: what the kernel accepted, followed by the output
-- buffer, is the text of the messages that `sendInLoop` took, in order; the messages of the loop's
-- thread were all taken, in order; those of the other threads are, in order, taken, lost or queued, and
-- lost only if the connection was closed or half-closed before; and where `::shutdown` was called on a
-- connection that is not closed, the output buffer is empty and the state is past `Connected`. Until
-- `::shutdown` the kernel reports no broken connection, every write event takes some bytes, and
-- `forceClose` is not called on a closed connection.
pub Reach-IsInOrder :
    {connfd : ℕ} {write_complete_set : Bool} {s : Session}
    → Reach connfd write_complete_set s
    → IsInOrder s
unfolding new_connection new_channel readable_bytes new
Reach-IsInOrder here = record {
  tended = record {
    open_flushes = λ o. record { valid = new-IsValid initial_size; mask = nothing; listens = refl };
    closed_rests = λ o. refl;
  };
  stream = empty_new initial_size;
  here_kept = refl;
  there_kept = refl;
  open_keeps = λ h o. refl;
  asked_past = λ h. cc;
  shut_past = λ h. cc;
  shut_empty = λ h o. cc;
}
Reach-IsInOrder (next r st) = Step-IsInOrder st (Reach-IsInOrder r)
