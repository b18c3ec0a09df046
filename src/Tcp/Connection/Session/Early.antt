-- ===== src/Tcp/Connection/Session/Early.antt =====
-- A half-close that overtakes a message.
use shero.Common.{
  ℕ, ◌≤◌, ◌<◌, ◌≡◌, refl, sym, ap, subst, ◌∙◌, Bool, true, false, ◌&&◌, ◌||◌, [], ◌∷◌, ◌++◌, List,
  arith, ltb, append-nil, length, drop_all,
}
use shero.Common.Bytes.{Bytes}
use shero.Buffer.{SysResult, done, to_string, readable_bytes, retrieve, write_fd}
use shero.Buffer.Invariant.{length-to_string, retrieve-IsValid}
use shero.Buffer.Content.{retrieve-to_string}
use shero.Net.Channel.{is_writing}
use shero.Tcp.Connection.{
  TcpConnection, connected, disconnecting, queued, Task, send_task, shutdown_task, send, shutdown,
  handle_write, after_retrieve, is_disconnecting, is_disconnected, is_connected,
}
use shero.Tcp.Connection.Stream.{IsFlushing}
use shero.Tcp.Connection.Session.{
  Session, Reach, next, Step, emit, shuts, queued_in, send_there, run_task, Kernel, is_open,
}
use shero.Tcp.Connection.Session.Sends.{connected_not_shut}
use shero.Tcp.Connection.Session.Runs.{refused}
use shero.Tcp.Connection.Session.Kept.{Reach-IsInOrder}
use shero.Tcp.Connection.Session.Writes.{drained_half_closes}

-- Where `::write` takes all that a disconnecting connection has to write, `handleWrite` half-closes it.
half_closes :
    (write : Bytes → SysResult ℕ) (n : ℕ) (c : TcpConnection)
    → IsFlushing c
    → is_disconnecting c.state ≡ true
    → is_writing c.channel ≡ true
    → write (to_string c.output) ≡ done n
    → 0 < n
    → length (to_string c.output) ≤ n
    → shuts (handle_write write c).1 ≡ true
unfolding handle_write write_fd after_retrieve
half_closes write n c f d w e h all =
    let some_written : ltb 0 n ≡ true = ground arith in
    let c' = record c { output = retrieve n c.output } in
    let v = retrieve-IsValid n f.valid in
    let left : readable_bytes c'.output ≡ 0 =
      sym (length-to_string v)
      ∙ ap length (retrieve-to_string n f.valid ∙ drop_all n (to_string c.output) all) in
    rw (w, e, some_written, left) (drained_half_closes c' f.mask d)

or_true_right : (b : Bool) → (b || true) ≡ true
or_true_right true = refl
or_true_right false = refl

and_false : (b : Bool) → (b && false) ≡ false
and_false true = refl
and_false false = refl

module _ (s : Session) (write : Bytes → SysResult ℕ) (msg : Bytes) where
  -- What the calls make of the session.
  abbrev pub after_send : Session
  after_send = send_there write msg s

  abbrev pub after_shutdown : Session
  after_shutdown = emit after_send (shutdown false after_send.conn)

  abbrev pub after_write : Session
  after_write = emit after_shutdown (handle_write write after_shutdown.conn)

  -- The message of `u` is lost: it is neither written nor kept for later.
  abbrev pub IsLost : Session → Session → Type 0
  IsLost t u = (u.lost ≡ msg ∷ []) × (u.conn ≡ t.conn) × (u.accepted ≡ t.accepted)

  -- The connection is half-closed, the message is the first of the functions queued, and on any kernel
  -- that breaks the pipe behind `::shutdown` its run loses it.
  abbrev pub IsOvertaken : ℕ → Bool → Session → Type 0
  IsOvertaken connfd write_complete_set t =
      Reach connfd write_complete_set t
      × (t.shut ≡ true)
      × (t.sent_there ≡ s.sent_there ++ msg ∷ [])
      × (later : List Task) × (t.tasks ≡ send_task msg ∷ later)
      × ((broken : Bytes → SysResult ℕ)
          → Kernel t.shut broken
          → IsLost t (run_task broken (send_task msg) (record t { tasks = later })))

module _ {connfd : ℕ} {write_complete_set : Bool} (s : Session) (write : Bytes → SysResult ℕ)
    (n : ℕ) (msg : Bytes) (r : Reach connfd write_complete_set s) (conn : s.conn.state ≡ connected)
    (quiet : s.tasks ≡ []) (w : is_writing s.conn.channel ≡ true)
    (e : write (to_string s.conn.output) ≡ done n) (some_taken : 0 < n)
    (all_taken : length (to_string s.conn.output) ≤ n) where
  -- `send(msg)` by another thread, then its `shutdown()`, then the event of writing in the loop.
  abbrev sent : Session
  sent = record (emit s (s.conn, queued (send_task msg) ∷ [])) {
    sent_there = s.sent_there ++ msg ∷ [];
  }

  abbrev asked : Session
  asked = emit sent (record s.conn { state = disconnecting }, queued shutdown_task ∷ [])

  abbrev flushed : Session
  flushed = emit asked (handle_write write asked.conn)

  abbrev later : List Task
  later = shutdown_task ∷ queued_in (handle_write write asked.conn).1

  flushed-Reach : Reach connfd write_complete_set flushed
  unfolding send_there send shutdown
  flushed-Reach =
      let one : send_there write msg s ≡ sent = rw conn refl in
      let two : emit sent (shutdown false sent.conn) ≡ asked = rw conn refl in
      let r1 =
        subst (Reach connfd write_complete_set) one (next r (Step.sends_there s write msg)) in
      let r2 = subst (Reach connfd write_complete_set) two (next r1 (Step.shuts_down sent false)) in
      next r2 (Step.writes asked write n w e some_taken)

  flushed-shut : flushed.shut ≡ true
  flushed-shut =
      let i = Reach-IsInOrder r in
      let f = i.tended.open_flushes (ap is_disconnected conn) in
      let f' : IsFlushing asked.conn = record {
        valid = f.valid;
        mask = f.mask;
        listens = f.listens;
      } in
      let h = half_closes write n asked.conn f' refl w e some_taken all_taken in
      rw h (or_true_right ((s.shut || false) || false))

  flushed-tasks : flushed.tasks ≡ send_task msg ∷ later
  flushed-tasks =
      ap
        (λ t.
          ((t ++ send_task msg ∷ []) ++ shutdown_task ∷ [])
          ++ queued_in (handle_write write asked.conn).1)
        quiet

  flushed_loses :
      (broken : Bytes → SysResult ℕ)
      → Kernel flushed.shut broken
      → IsLost s write msg flushed
          (run_task broken (send_task msg) (record flushed { tasks = later }))
  unfolding run_task
  flushed_loses broken k =
      let i = Reach-IsInOrder flushed-Reach in
      let closed : is_open flushed ≡ false = rw flushed-shut (and_false _) in
      let before = Reach-IsInOrder r in
      let opened : s.shut ≡ false = connected_not_shut s before (ap is_connected conn) in
      let kept : s.lost ≡ [] = before.open_keeps opened (ap is_disconnected conn) in
      let left : Session = record flushed { tasks = later } in
      let last : run_task broken (send_task msg) left
          ≡ record (emit left (flushed.conn, [])) { lost = s.lost ++ msg ∷ [] } =
        rw (closed, refused broken msg flushed i k closed) refl in
      (
        ap (λ t. t.lost) last ∙ ap (λ t. t ++ msg ∷ []) kept,
        ap (λ t. t.conn) last,
        ap (λ t. t.accepted) last ∙ append-nil flushed.accepted,
      )

  after_shutdown_lem : after_shutdown s write msg ≡ asked
  unfolding send_there send shutdown
  after_shutdown_lem =
      let one : send_there write msg s ≡ sent = rw conn refl in
      let two : emit sent (shutdown false sent.conn) ≡ asked = rw conn refl in
      ap (λ t. emit t (shutdown false t.conn)) one ∙ two

  -- Where a reached connection is connected, has something left to write and no function queued, another
  -- thread calls `send` and then `shutdown`, and then `handleWrite` writes all that was left: the calls
  -- half-close nothing, but `handleWrite` does, while the message, which was sent while connected, is
  -- still the first of the queued functions; and its run loses it.
  pub shutdown-overtakes_send :
      ((after_shutdown s write msg).shut ≡ false)
      × IsOvertaken s write msg connfd write_complete_set (after_write s write msg)
  shutdown-overtakes_send =
      let opened : s.shut ≡ false =
        connected_not_shut s (Reach-IsInOrder r) (ap is_connected conn) in
      let asked_open : asked.shut ≡ false = ap (λ b. (b || false) || false) opened in
      let write_lem : after_write s write msg ≡ flushed =
        ap (λ t. emit t (handle_write write t.conn)) after_shutdown_lem in
      (
        ap (λ t. t.shut) after_shutdown_lem ∙ asked_open,
        subst (IsOvertaken s write msg connfd write_complete_set) (sym write_lem)
            (flushed-Reach, flushed-shut, refl, later, flushed-tasks, flushed_loses),
      )
