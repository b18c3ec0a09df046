-- ===== src/Tests/Sessions.antt =====
-- Sessions of a connection: concrete runs.
use shero.Common.{ℕ, ◌≡◌, refl, false, [], ◌∷◌, arith}
use shero.Common.Bytes.{Bytes, codes}
use shero.Buffer.{SysResult, failed, done, readable_bytes, new, to_string, write_len}
use shero.Net.Channel.{Channel, new_channel, add_listen_events, read_event}
use shero.Tcp.Connection.{
  TcpConnection, connected, update_to_loop, connection_callback, new_connection,
  connect_established, send, send_in_loop,
}
use shero.Tcp.Connection.Session.{Session, Reach, here, next, Step, new_session, emit, send_here}
use shero.Tcp.Connection.Session.InOrder.{IsInOrder}
use shero.Tcp.Connection.Session.Kept.{Reach-IsInOrder}
use shero.Tcp.Connection.Session.Early.{
  after_shutdown, after_write, IsOvertaken, shutdown-overtakes_send,
}

-- A connection is established, and its loop sends two bytes that the kernel does not take yet.
abbrev fresh : Session
fresh = new_session (new_connection 5 false)

abbrev listening : Channel
listening = add_listen_events read_event fresh.conn.channel

abbrev ready : TcpConnection
ready = record fresh.conn { state = connected; channel = listening }

abbrev full : Bytes → SysResult ℕ
full xs = failed 11

abbrev takes_two : Bytes → SysResult ℕ
takes_two xs = done 2

abbrev waiting : Session
waiting =
    send_here full (codes "ok")
      (emit fresh (ready, update_to_loop listening ∷ connection_callback connected ∷ []))

waiting-Reach : Reach 5 false waiting
unfolding connect_established new_connection
waiting-Reach =
    next
      (next here (
        Step.establishes fresh ready (update_to_loop listening ∷ connection_callback connected ∷ [])
          refl))
      (Step.sends_here _ full (codes "ok") ((λ a xs. refl), (λ a xs. cc)))

Reach-IsInOrder_example : IsInOrder waiting
Reach-IsInOrder_example = Reach-IsInOrder waiting-Reach

shutdown-overtakes_send_example :
    ((after_shutdown waiting takes_two (codes "no")).shut ≡ false)
    × IsOvertaken waiting takes_two
        (codes "no")
        5
        false
        (after_write waiting takes_two (codes "no"))
unfolding send_here send send_in_loop add_listen_events new_connection new_channel readable_bytes
    new to_string write_len
shutdown-overtakes_send_example =
    shutdown-overtakes_send waiting takes_two 2 (codes "no") waiting-Reach refl refl refl refl
      (omega arith) (omega arith)
