-- ===== src/Tcp/Connection/Session/Writes.antt =====
-- The same of `handleWrite`.
use shero.Common.{
  ℕ, ◌<◌, ◌≡◌, refl, sym, ap, ◌∙◌, Bool, true, false, List, [], ◌∷◌, ◌++◌, if◌then◌else◌, arith,
  Bool-cases, inl, inr, take, ◌==◌, ==_iff, ltb,
}
use shero.Common.Bytes.{Bytes}
use shero.Buffer.{SysResult, done, to_string, readable_bytes, retrieve, write_fd}
use shero.Buffer.Invariant.{IsValid, retrieve-IsValid}
use shero.Net.Channel.{is_writing, del_listen_events, write_event}
use shero.Tcp.Connection.{
  TcpConnection, ConnectionState, connecting, connected, disconnecting, disconnected, Effect,
  is_disconnected, is_disconnecting, complete_queued, shutdown_in_loop, drained, after_retrieve,
  handle_write,
}
use shero.Tcp.Connection.Stream.{IsMask, handle_write-Takes, stops, empty_queue}
use shero.Tcp.Connection.Session.{queued_in, shuts}
use shero.Tcp.Connection.Session.Moves.{Moves, IsTended, is_past, asks, pending}

-- The write-complete callback in front of other effects.
behind_complete :
    (b : Bool) (es : List Effect)
    → (asks (queued_in (complete_queued b ++ es)) ≡ asks (queued_in es))
      × (pending (queued_in (complete_queued b ++ es)) ≡ pending (queued_in es))
      × (shuts (complete_queued b ++ es) ≡ shuts es)
behind_complete true es = (refl, refl, refl)
behind_complete false es = (refl, refl, refl)

-- Neither a message nor a half-close is queued.
abbrev Queues : List Effect → Type 0
Queues es = (asks (queued_in es) ≡ false) × (pending (queued_in es) ≡ [])

shutdown-Queues : (b : Bool) (c : TcpConnection) → Queues (if b then shutdown_in_loop c else [])
unfolding shutdown_in_loop
shutdown-Queues true c = elim (Bool-cases (is_writing c.channel)) [
  | inl w ↦ rw w (refl, refl)
  | inr w ↦ rw w (refl, refl)
]
shutdown-Queues false c = (refl, refl)

-- What `handleWrite` does on an empty output: it shuts down where the connection is disconnecting.
drained-Queues : (c : TcpConnection) → Queues (drained c).1
unfolding drained
drained-Queues c =
    let k = record c { channel = del_listen_events write_event c.channel } in
    let q = shutdown-Queues (is_disconnecting c.state) k in
    let b =
      behind_complete c.write_complete_set
        (if is_disconnecting c.state then shutdown_in_loop k else []) in
    (b.0 ∙ q.0, b.1 ∙ q.1)

drained-shuts : (c : TcpConnection) → shuts (drained c).1 ≡ true → is_disconnecting c.state ≡ true
unfolding drained
drained-shuts c h =
    go (is_disconnecting c.state) (record c { channel = del_listen_events write_event c.channel })
      (sym ((behind_complete c.write_complete_set _).2) ∙ h)
  where
    go :
        (b : Bool) (k : TcpConnection)
        → shuts (if b then shutdown_in_loop k else []) ≡ true
        → b ≡ true
    go true k e = refl
    go false k e = e

-- On an empty output a connection that is disconnecting is half-closed.
pub drained_half_closes :
    (c : TcpConnection)
    → IsMask c.channel.event
    → is_disconnecting c.state ≡ true
    → shuts (drained c).1 ≡ true
unfolding drained shutdown_in_loop
drained_half_closes c m d =
    rw (d, stops c.channel m) ((behind_complete c.write_complete_set (Effect.shut_write ∷ [])).2)

disconnecting_past : (st : ConnectionState) → is_disconnecting st ≡ true → is_past st ≡ true
disconnecting_past disconnecting e = refl
disconnecting_past disconnected e = refl
disconnecting_past connecting e = e
disconnecting_past connected e = e

-- The effects of `handleWrite` behind `retrieve`, with the state that it keeps.
record Flushed (c c' : TcpConnection) (es : List Effect) : Type 0 where
  queues : Queues es
  shut_now : shuts es ≡ true → (is_past c.state ≡ true) × (to_string c'.output ≡ [])

after_retrieve-Flushed :
    (xs : Bytes) (c : TcpConnection)
    → IsValid c.output
    → let wr = Effect.wrote xs ∷ [] in Flushed c (after_retrieve wr c).0 (after_retrieve wr c).1
unfolding after_retrieve drained
after_retrieve-Flushed xs c v = elim (Bool-cases (readable_bytes c.output == 0)) [
  | inl e ↦ rw e (record {
    queues = drained-Queues c;
    shut_now =
        λ s. (disconnecting_past c.state (drained-shuts c s), empty_queue v ((==_iff _ 0).0 e));
  })
  | inr e ↦ rw e (record { queues = (refl, refl); shut_now = λ s. cc })
]

pub handle_write-Moves :
    (write : Bytes → SysResult ℕ) (n : ℕ) (c : TcpConnection)
    → IsTended c
    → is_writing c.channel ≡ true
    → write (to_string c.output) ≡ done n
    → 0 < n
    → Moves [] c (handle_write write c).0 (handle_write write c).1
unfolding handle_write write_fd
handle_write-Moves write n c t w e h =
    let d : is_disconnected c.state ≡ false = elim (Bool-cases (is_disconnected c.state)) [
      | inl y ↦ absurd (cc (t.closed_rests y))
      | inr y ↦ y
    ] in
    let f = t.open_flushes d in
    let some_written : ltb 0 n ≡ true = ground arith in
    let k = handle_write-Takes write n c f w e h in
    let x : Flushed c (handle_write write c).0 (handle_write write c).1 =
      rw (w, e, some_written)
        (let y =
            after_retrieve-Flushed (take n (to_string c.output))
              (record c { output = retrieve n c.output }) (retrieve-IsValid n f.valid) in
          record { queues = y.queues; shut_now = y.shut_now }) in
    record {
      stream = k.stream;
      tended = record {
        open_flushes = λ o. k.flushing;
        closed_rests = λ o. absurd (cc (ap is_disconnected k.same_state));
      };
      past = λ q. ap is_past k.same_state ∙ q;
      gone = λ q. d;
      no_messages = x.queues.1;
      asked = λ q. absurd (cc (x.queues.0));
      shut_past = λ q. ap is_past k.same_state ∙ (x.shut_now q).0;
      shut_empty = λ q o. (x.shut_now q).1;
    }
