-- ===== src/Tcp/Connection/Session/Runs.antt =====
-- The run of a queued function keeps the order of a session.
use shero.Common.{
  ℕ, ◌≡◌, refl, sym, ap, ◌∙◌, Bool, true, false, ◌||◌, List, [], ◌∷◌, ◌++◌, append-nil,
  append_assoc, arith, Bool-cases, inl, inr, length,
}
use shero.Common.Bytes.{Bytes}
use shero.Buffer.{SysResult, to_string, readable_bytes}
use shero.Buffer.Invariant.{length-to_string}
use shero.Net.Channel.{is_writing}
use shero.Tcp.Connection.{
  Task, send_task, shutdown_task, is_disconnected, send_in_loop, write_directly,
}
use shero.Tcp.Connection.Errors.{force_close_in_loop_always}
use shero.Tcp.Connection.Session.{Session, emit, queued_in, Kernel, run_task, is_open}
use shero.Tcp.Connection.Session.Sends.{sends-Moves}
use shero.Tcp.Connection.Session.Moves.{asks, pending, shutdown_in_loop-Moves}
use shero.Tcp.Connection.Session.Ends.{force_close_in_loop-Moves}
use shero.Tcp.Connection.Session.InOrder.{
  IsInOrder, from_loop, from_others, texts-append, from_loop-append, from_others-append,
  pending-append, asks-append, or_true, or_false, emit-IsInOrder, emit_stream, emit-IsKept,
}

-- A closed connection, and one that is half-closed, does not take what `sendInLoop` is given.
pub refused :
    (write : Bytes → SysResult ℕ) (msg : Bytes) (s : Session)
    → IsInOrder s
    → Kernel s.shut write
    → is_open s ≡ false
    → send_in_loop write msg s.conn ≡ (s.conn, [])
unfolding send_in_loop write_directly
refused write msg s i k n = elim (Bool-cases (is_disconnected s.conn.state)) [
  | inl d ↦ rw d refl
  | inr d ↦
      let a : s.shut ≡ true = ground (arith, n, d) in
      let f = i.tended.open_flushes d in
      let none_left : readable_bytes s.conn.output ≡ 0 =
        sym (length-to_string f.valid) ∙ ap length (i.shut_empty a d) in
      let idle_now : is_writing s.conn.channel ≡ false = f.listens ∙ rw none_left refl in
      rw (d, idle_now, none_left, k.1 a msg) refl
]

-- A queued function that is no message is taken from the queue.
popped-IsInOrder :
    (t : Task) (rest : List Task) (s : Session)
    → IsInOrder s
    → s.tasks ≡ t ∷ rest
    → pending (t ∷ []) ≡ []
    → IsInOrder (record s { tasks = rest })
popped-IsInOrder t rest s i e p = record {
  tended = i.tended;
  stream = i.stream;
  here_kept = i.here_kept;
  there_kept =
      ap (λ u. from_others s.taken ++ (s.lost ++ u))
        (sym (ap pending e ∙ pending-append (t ∷ []) rest ∙ ap (λ u. u ++ pending rest) p))
      ∙ i.there_kept;
  open_keeps = i.open_keeps;
  asked_past = λ h. i.asked_past (ap asks e ∙ still_asked t h);
  shut_past = i.shut_past;
  shut_empty = i.shut_empty;
}
  where
    still_asked : (u : Task) → asks rest ≡ true → asks (u ∷ rest) ≡ true
    still_asked shutdown_task h = refl
    still_asked (send_task m) h = h
    still_asked Task.write_complete h = h
    still_asked Task.force_close_task h = h

module _ (write : Bytes → SysResult ℕ) (msg : Bytes) (rest : List Task) (s : Session)
    (i : IsInOrder s) (e : s.tasks ≡ send_task msg ∷ rest) where
  taken_by_task :
      Kernel s.shut write
      → s.shut ≡ false
      → is_disconnected s.conn.state ≡ false
      → IsInOrder (record (emit (record s { tasks = rest }) (send_in_loop write msg s.conn)) {
        taken = s.taken ++ (false, msg) ∷ [];
      })
  taken_by_task k a d =
      let s' = record s { tasks = rest } in
      let (p, m) = sends-Moves write msg s i k a d in
      let es = (send_in_loop write msg s.conn).1 in
      let c = (send_in_loop write msg s.conn).0 in
      let kept = emit-IsKept msg s c es i m (λ b. absurd (cc (a))) in
      record {
        tended = kept.tended;
        stream = emit_stream msg s c es i m ∙ sym (texts-append s.taken false msg);
        here_kept =
            from_loop-append s.taken ((false, msg) ∷ [])
            ∙ append-nil (from_loop s.taken)
            ∙ i.here_kept;
        there_kept =
            ap (λ t. t ++ (s.lost ++ pending (rest ++ queued_in es)))
              (from_others-append s.taken ((false, msg) ∷ []))
            ∙ ap (λ t. (from_others s.taken ++ msg ∷ []) ++ (t ++ pending (rest ++ queued_in es)))
                (i.open_keeps a d)
            ∙ ap (λ t. (from_others s.taken ++ msg ∷ []) ++ t)
                (pending-append rest (queued_in es)
                  ∙ ap (λ t. pending rest ++ t) m.no_messages
                  ∙ append-nil (pending rest))
            ∙ append_assoc (from_others s.taken) (msg ∷ []) (pending rest)
            ∙ ap (λ t. from_others s.taken ++ t) (sym (ap pending e))
            ∙ ap (λ t. from_others s.taken ++ (t ++ pending s.tasks)) (sym (i.open_keeps a d))
            ∙ i.there_kept;
        open_keeps = λ h o. i.open_keeps a (m.gone o);
        asked_past = λ h. elim (or_true _ _ (sym (asks-append rest (queued_in es)) ∙ h)) [
          | inl b ↦ m.past (i.asked_past (ap asks e ∙ b))
          | inr b ↦ m.asked b
        ];
        shut_past = kept.shut_past;
        shut_empty = kept.shut_empty;
      }

  -- The message is lost.
  lost_by_task :
      is_open s ≡ false
      → IsInOrder
          (record (emit (record s { tasks = rest }) (s.conn, [])) { lost = s.lost ++ msg ∷ [] })
  lost_by_task n = record {
    tended = i.tended;
    stream = ap (λ t. t ++ to_string s.conn.output) (append-nil s.accepted) ∙ i.stream;
    here_kept = i.here_kept;
    there_kept =
        ap (λ t. from_others s.taken ++ ((s.lost ++ msg ∷ []) ++ pending t)) (append-nil rest)
        ∙ ap (λ t. from_others s.taken ++ t) (append_assoc s.lost (msg ∷ []) (pending rest))
        ∙ ap (λ t. from_others s.taken ++ (s.lost ++ t)) (sym (ap pending e))
        ∙ i.there_kept;
    open_keeps = λ h o. absurd (ground (arith, n, o, or_false s.shut false h));
    asked_past = λ h. i.asked_past (ap asks e ∙ sym (ap asks (append-nil rest)) ∙ h);
    shut_past = λ h. i.shut_past (now_shut s.shut h);
    shut_empty = λ h o. i.shut_empty (now_shut s.shut h) o;
  }
    where
      now_shut : (b : Bool) → (b || false) ≡ true → b ≡ true
      now_shut true h = h
      now_shut false h = h

pub run_task-IsInOrder :
    (write : Bytes → SysResult ℕ) (t : Task) (rest : List Task) (s : Session)
    → IsInOrder s
    → Kernel s.shut write
    → s.tasks ≡ t ∷ rest
    → IsInOrder (run_task write t (record s { tasks = rest }))
unfolding run_task
run_task-IsInOrder write Task.write_complete rest s i k e =
    popped-IsInOrder Task.write_complete rest s i e refl
run_task-IsInOrder write shutdown_task rest s i k e =
    let j = popped-IsInOrder shutdown_task rest s i e refl in
    emit-IsInOrder (record s { tasks = rest }) s.conn _ j
      (shutdown_in_loop-Moves s.conn i.tended (i.asked_past (ap asks e)))
run_task-IsInOrder write Task.force_close_task rest s i k e =
    let j = popped-IsInOrder Task.force_close_task rest s i e refl in
    let h = force_close_in_loop_always s.conn in
    rw h (emit-IsInOrder (record s { tasks = rest }) _ _ j (force_close_in_loop-Moves s.conn _ _ h))
run_task-IsInOrder write (send_task msg) rest s i k e = elim (Bool-cases (is_open s)) [
  | inr n ↦ rw (n, refused write msg s i k n) (lost_by_task write msg rest s i e n)
  | inl y ↦ rw y (taken_by_task write msg rest s i e k (ground (arith, y)) (ground (arith, y)))
]
