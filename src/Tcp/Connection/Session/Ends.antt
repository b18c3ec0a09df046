-- ===== src/Tcp/Connection/Session/Ends.antt =====
-- The same of the methods that open and close a connection, and of `handleWrite`.
use shero.Common.{
  ℕ, ◌≡◌, refl, sym, ap, ◌∙◌, subst, false, not, ◌||◌, List, [], ◌∷◌, append-nil, arith, Bool-cases,
  inl, inr, ◌==◌,
}
use shero.Common.Bytes.{Bytes}
use shero.Buffer.{to_string}
use shero.Net.Channel.{
  Channel, is_writing, add_listen_events, del_all_listen_events, read_event, write_event,
}
use shero.Tcp.Connection.{
  TcpConnection, connecting, connected, disconnected, force_close_task, Effect, is_connected,
  is_disconnected, is_disconnecting, handle_close, force_close, force_close_in_loop,
  connect_established, connect_destroyed, Done, ran,
}
use shero.Tcp.Connection.Stream.{written, IsMask, nothing, reading, writing, both}
use Prim.Native.Nat.{bit_and, bit_or}
use shero.Tcp.Connection.Errors.{force_close_in_loop_always}
use shero.Tcp.Connection.Session.{queued_in, shuts}
use shero.Tcp.Connection.Session.Moves.{Moves, IsTended, is_past, pending, stay, to_disconnecting}

ran_conn : {c c' : TcpConnection} {es es' : List Effect} → ran c es ≡ ran c' es' → c ≡ c'
ran_conn e = cc

ran_effects : {c c' : TcpConnection} {es es' : List Effect} → ran c es ≡ ran c' es' → es ≡ es'
ran_effects e = cc

ran-Moves :
    {xs : Bytes} {c c₁ c' : TcpConnection} {es₁ es : List Effect}
    → Moves xs c c₁ es₁
    → ran c₁ es₁ ≡ ran c' es
    → Moves xs c c' es
ran-Moves {xs} {c} {c₁} {c'} {es₁} {es} m e =
    subst (λ k. Moves xs c k es) (ran_conn e) (subst (λ k. Moves xs c c₁ k) (ran_effects e) m)

-- The connection is closed: its channel is silent, and the output is kept.
closing :
    (c : TcpConnection) (es : List Effect)
    → written es ≡ []
    → queued_in es ≡ []
    → shuts es ≡ false
    → Moves [] c (record c { state = disconnected; channel = del_all_listen_events c.channel }) es
unfolding del_all_listen_events
closing c es wr no_tasks no_shut = record {
  stream = rw wr (sym (append-nil (to_string c.output)));
  tended = record { open_flushes = λ o. cc; closed_rests = λ o. refl };
  past = λ q. refl;
  gone = λ o. cc;
  no_messages = ap pending no_tasks;
  asked = λ q. refl;
  shut_past = λ q. refl;
  shut_empty = λ q o. cc;
}

pub handle_close-Moves :
    (c c' : TcpConnection) (es : List Effect) → handle_close c ≡ ran c' es → Moves [] c c' es
unfolding handle_close
handle_close-Moves c c' es h =
    elim (Bool-cases (is_connected c.state || is_disconnecting c.state)) [
      | inl y ↦
          ran-Moves
            (closing c
              (Effect.update_to_loop (del_all_listen_events c.channel)
                ∷ Effect.connection_callback disconnected
                ∷ Effect.close_callback
                ∷ [])
              refl refl refl)
            (sym (rw y refl) ∙ h)
      | inr n ↦ absurd (cc (h, let e : handle_close c ≡ Done.assert_failed = rw n refl in e))
    ]

-- `forceCloseInLoop` closes from every state.
pub force_close_in_loop-Moves :
    (c c' : TcpConnection) (es : List Effect) → force_close_in_loop c ≡ ran c' es → Moves [] c c' es
force_close_in_loop-Moves c c' es h =
    ran-Moves (closing c _ refl refl refl) (sym (force_close_in_loop_always c) ∙ h)

pub force_close-Moves :
    (c : TcpConnection)
    → IsTended c
    → is_disconnected c.state ≡ false
    → Moves [] c (force_close c).0 (force_close c).1
unfolding force_close
force_close-Moves c t d = elim (Bool-cases (is_connected c.state)) [
  | inl y ↦ rw y (to_disconnecting c force_close_task t d refl)
  | inr n ↦ rw n (to_disconnecting c force_close_task t d refl)
]

pub connect_destroyed-Moves :
    (c c' : TcpConnection) (es : List Effect)
    → IsTended c
    → connect_destroyed c ≡ ran c' es
    → Moves [] c c' es
unfolding connect_destroyed
connect_destroyed-Moves c c' es t h = elim (Bool-cases (is_connected c.state)) [
  | inl y ↦
      let ch = del_all_listen_events c.channel in
      ran-Moves
        (closing c
          (Effect.update_to_loop ch
            ∷ Effect.connection_callback disconnected
            ∷ Effect.remove_from_loop ch
            ∷ [])
          refl refl refl)
        (sym (rw y refl) ∙ h)
  | inr n ↦ ran-Moves (silent (stay c t)) (sym (rw n refl) ∙ h)
]
  where
    silent : Moves [] c c [] → Moves [] c c (Effect.remove_from_loop c.channel ∷ [])
    silent m = record {
      stream = m.stream;
      tended = m.tended;
      past = m.past;
      gone = m.gone;
      no_messages = m.no_messages;
      asked = m.asked;
      shut_past = m.shut_past;
      shut_empty = m.shut_empty;
    }

reads_too : (ch : Channel) → IsMask ch.event → IsMask (add_listen_events read_event ch).event
unfolding add_listen_events
reads_too ch m = go ch.event m
  where
    go : (e : ℕ) → IsMask e → IsMask (bit_or e read_event)
    go e nothing = reading
    go e reading = reading
    go e writing = both
    go e both = both

reads_only :
    (ch : Channel) → IsMask ch.event → is_writing (add_listen_events read_event ch) ≡ is_writing ch
unfolding add_listen_events
reads_only ch m = go ch.event m
  where
    go :
        (e : ℕ)
        → IsMask e
        → not (bit_and (bit_or e read_event) write_event == 0) ≡ not (bit_and e write_event == 0)
    go e nothing = refl
    go e reading = refl
    go e writing = refl
    go e both = refl

established :
    (c : TcpConnection)
    → IsTended c
    → c.state ≡ connecting
    → let ch = add_listen_events read_event c.channel in
      Moves [] c
        (record c { state = connected; channel = ch })
        (Effect.update_to_loop ch ∷ Effect.connection_callback connected ∷ [])
established c t e =
    let f = t.open_flushes (ap is_disconnected e) in
    record {
      stream = sym (append-nil (to_string c.output));
      tended = record {
        open_flushes = λ o. record {
          valid = f.valid;
          mask = reads_too c.channel f.mask;
          listens = reads_only c.channel f.mask ∙ f.listens;
        };
        closed_rests = λ o. cc;
      };
      past = λ q. absurd (cc (ap is_past e));
      gone = λ q. ap is_disconnected e;
      no_messages = refl;
      asked = λ q. cc;
      shut_past = λ q. cc;
      shut_empty = λ q. cc;
    }

-- `connectEstablished` asserts that the connection is connecting.
pub established_connecting :
    (c c' : TcpConnection) (es : List Effect)
    → connect_established c ≡ ran c' es
    → c.state ≡ connecting
unfolding connect_established
established_connecting c c' es h = ground arith

pub connect_established-Moves :
    (c c' : TcpConnection) (es : List Effect)
    → IsTended c
    → connect_established c ≡ ran c' es
    → Moves [] c c' es
unfolding connect_established
connect_established-Moves c c' es t h =
    let e = established_connecting c c' es h in
    let ch = add_listen_events read_event c.channel in
    let runs : connect_established c
        ≡ ran (record c { state = connected; channel = ch })
            (Effect.update_to_loop ch ∷ Effect.connection_callback connected ∷ []) =
      ground arith in
    ran-Moves (established c t e) (sym runs ∙ h)
