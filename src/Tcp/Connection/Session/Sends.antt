-- ===== src/Tcp/Connection/Session/Sends.antt =====
-- A call of `send` keeps the order of a session.
use shero.Common.{
  ℕ, ◌≡◌, refl, sym, ap, ◌∙◌, true, false, List, [], ◌∷◌, ◌++◌, append-nil, append_assoc,
  Bool-cases, inl, inr,
}
use shero.Common.Bytes.{Bytes}
use shero.Buffer.{SysResult, to_string}
use shero.Tcp.Connection.{
  ConnectionState, connecting, connected, disconnecting, disconnected, Task, send_task,
  shutdown_task, is_connected, is_disconnected, send, send_in_loop,
}
use shero.Tcp.Connection.Stream.{send_in_loop-Takes}
use shero.Tcp.Connection.Session.{Session, queued_in, Kernel, send_here, send_there}
use shero.Tcp.Connection.Session.Moves.{
  Moves, is_past, asks, pending, stay, IsPlain, send_in_loop-IsPlain, Takes-Moves, connected_open,
}
use shero.Tcp.Connection.Session.InOrder.{
  IsInOrder, from_others, texts-append, from_loop-append, from_others-append, pending-append,
  emit-IsInOrder, emit_stream, emit-IsKept,
}

connected_not_past : (st : ConnectionState) → is_connected st ≡ true → is_past st ≡ false
connected_not_past connected e = refl
connected_not_past connecting e = refl
connected_not_past disconnecting e = sym e
connected_not_past disconnected e = sym e

-- Nothing is sent through a connection on which `::shutdown` was called.
pub connected_not_shut :
    (s : Session) → IsInOrder s → is_connected s.conn.state ≡ true → s.shut ≡ false
connected_not_shut s i y = elim (Bool-cases s.shut) [
  | inl a ↦ absurd (cc (i.shut_past a, connected_not_past s.conn.state y))
  | inr a ↦ a
]

pub sends-Moves :
    (write : Bytes → SysResult ℕ) (msg : Bytes) (s : Session)
    → IsInOrder s
    → Kernel s.shut write
    → s.shut ≡ false
    → is_disconnected s.conn.state ≡ false
    → IsPlain (send_in_loop write msg s.conn).1
      × Moves msg s.conn (send_in_loop write msg s.conn).0 (send_in_loop write msg s.conn).1
sends-Moves write msg s i k a d =
    let p = send_in_loop-IsPlain write msg s.conn (k.0 a msg) in
    (
      p,
      Takes-Moves msg s.conn _ _ d p
          (send_in_loop-Takes write msg s.conn (i.tended.open_flushes d) d (k.0 a msg)),
    )

pub send_here-IsInOrder :
    (write : Bytes → SysResult ℕ) (msg : Bytes) (s : Session)
    → IsInOrder s
    → Kernel s.shut write
    → IsInOrder (send_here write msg s)
unfolding send_here send
send_here-IsInOrder write msg s i k = elim (Bool-cases (is_connected s.conn.state)) [
  | inr n ↦ rw n (emit-IsInOrder s s.conn [] i (stay s.conn i.tended))
  | inl y ↦
      let a = connected_not_shut s i y in
      let (p, m) = sends-Moves write msg s i k a (connected_open s.conn.state y) in
      let es = (send_in_loop write msg s.conn).1 in
      let c = (send_in_loop write msg s.conn).0 in
      let kept = emit-IsKept msg s c es i m (λ b. absurd (cc (a))) in
      rw y (record {
        tended = kept.tended;
        stream = emit_stream msg s c es i m ∙ sym (texts-append s.taken true msg);
        here_kept =
            from_loop-append s.taken ((true, msg) ∷ []) ∙ ap (λ t. t ++ msg ∷ []) i.here_kept;
        there_kept =
            ap (λ t. t ++ (s.lost ++ pending (s.tasks ++ queued_in es)))
              (from_others-append s.taken ((true, msg) ∷ []) ∙ append-nil (from_others s.taken))
            ∙ ap (λ t. from_others s.taken ++ (s.lost ++ t))
                (pending-append s.tasks (queued_in es)
                  ∙ ap (λ t. pending s.tasks ++ t) m.no_messages
                  ∙ append-nil (pending s.tasks))
            ∙ i.there_kept;
        open_keeps = λ h o. i.open_keeps a (m.gone o);
        asked_past = kept.asked_past;
        shut_past = kept.shut_past;
        shut_empty = kept.shut_empty;
      })
]

pub send_there-IsInOrder :
    (write : Bytes → SysResult ℕ) (msg : Bytes) (s : Session)
    → IsInOrder s
    → IsInOrder (send_there write msg s)
unfolding send_there send
send_there-IsInOrder write msg s i = elim (Bool-cases (is_connected s.conn.state)) [
  | inr n ↦ rw n (emit-IsInOrder s s.conn [] i (stay s.conn i.tended))
  | inl y ↦
      let a = connected_not_shut s i y in
      rw (y, a)
        (record {
          tended = i.tended;
          stream = ap (λ t. t ++ to_string s.conn.output) (append-nil s.accepted) ∙ i.stream;
          here_kept = i.here_kept;
          there_kept =
              ap (λ t. from_others s.taken ++ (s.lost ++ t))
                (pending-append s.tasks (send_task msg ∷ []))
              ∙ ap (λ t. from_others s.taken ++ t)
                  (sym (append_assoc s.lost (pending s.tasks) (msg ∷ [])))
              ∙ sym (append_assoc (from_others s.taken) (s.lost ++ pending s.tasks) (msg ∷ []))
              ∙ ap (λ t. t ++ msg ∷ []) i.there_kept;
          open_keeps = λ h o. i.open_keeps a o;
          asked_past = λ h. i.asked_past (go s.tasks h);
          shut_past = λ h. cc;
          shut_empty = λ h o. cc;
        })
]
  where
    go : (ts : List Task) → asks (ts ++ send_task msg ∷ []) ≡ true → asks ts ≡ true
    go [] h = h
    go (shutdown_task ∷ ts) h = h
    go (send_task m ∷ ts) h = go ts h
    go (Task.write_complete ∷ ts) h = go ts h
    go (Task.force_close_task ∷ ts) h = go ts h
