-- ===== src/Tcp/Connection/Session/Moves.antt =====
-- What each method of a connection does to the stream of bytes, to the queue of the loop and to the
-- half-close.
use shero.Common.{
  ℕ, ◌≡◌, refl, sym, ap, ◌∙◌, Bool, true, false, not, ◌&&◌, List, [], ◌∷◌, ◌++◌, append-nil,
  if◌then◌else◌, Bool-cases, inl, inr, ◌-◌, length, drop, ◌==◌,
}
use shero.Common.Bytes.{Bytes}
use shero.Buffer.{SysResult, failed, done, to_string, readable_bytes}
use shero.Net.Channel.{is_writing}
use shero.Tcp.Connection.{
  TcpConnection, ConnectionState, connecting, connected, disconnecting, disconnected, Task,
  send_task, shutdown_task, Effect, is_connected, is_disconnected, complete_queued, keep_rest,
  write_directly, send_in_loop, shutdown_in_loop, shutdown,
}
use shero.Tcp.Connection.Stream.{written, IsFlushing, Accepts, Takes, idle, empty_queue}
use shero.Tcp.Connection.Session.{queued_in, shuts}

abbrev pub is_past : ConnectionState → Bool
is_past disconnecting = true
is_past disconnected = true
is_past _ = false

-- The messages and the half-closes that are queued.
abbrev pub pending : List Task → List Bytes
pending [] = []
pending (send_task msg ∷ ts) = msg ∷ pending ts
pending (_ ∷ ts) = pending ts

abbrev pub asks : List Task → Bool
asks [] = false
asks (shutdown_task ∷ ts) = true
asks (_ ∷ ts) = asks ts

-- The channel of a connection: of an open one it listens for writing exactly while the output holds
-- something, of a closed one it does not.
pub record IsTended (c : TcpConnection) : Type 0 where
  pub open_flushes : is_disconnected c.state ≡ false → IsFlushing c
  pub closed_rests : is_disconnected c.state ≡ true → is_writing c.channel ≡ false

-- The connection goes from `c` to `c'` by the effects `es` and takes `xs`.
pub record Moves (xs : Bytes) (c c' : TcpConnection) (es : List Effect) : Type 0 where
  pub stream : written es ++ to_string c'.output ≡ to_string c.output ++ xs
  pub tended : IsTended c'
  pub past : is_past c.state ≡ true → is_past c'.state ≡ true
  pub gone : is_disconnected c'.state ≡ false → is_disconnected c.state ≡ false
  pub no_messages : pending (queued_in es) ≡ []
  pub asked : asks (queued_in es) ≡ true → is_past c'.state ≡ true
  pub shut_past : shuts es ≡ true → is_past c'.state ≡ true
  pub shut_empty : shuts es ≡ true → is_disconnected c'.state ≡ false → to_string c'.output ≡ []

-- Nothing happens.
pub stay : (c : TcpConnection) → IsTended c → Moves [] c c []
stay c t = record {
  stream = sym (append-nil (to_string c.output));
  tended = t;
  past = λ p. p;
  gone = λ p. p;
  no_messages = refl;
  asked = λ p. cc;
  shut_past = λ p. cc;
  shut_empty = λ p. cc;
}

-- Effects that neither queue a task nor shut down.
pub record IsPlain (es : List Effect) : Type 0 where
  pub no_tasks : (asks (queued_in es) ≡ false) × (pending (queued_in es) ≡ [])
  pub no_shut : shuts es ≡ false

pub complete-IsPlain :
    (b : Bool) (es : List Effect) → IsPlain es → IsPlain (complete_queued b ++ es)
complete-IsPlain true es p = record { no_tasks = p.no_tasks; no_shut = p.no_shut }
complete-IsPlain false es p = p

complete_if-IsPlain :
    (e b : Bool) (es : List Effect)
    → IsPlain es
    → IsPlain ((if e then complete_queued b else []) ++ es)
complete_if-IsPlain true b es p = complete-IsPlain b es p
complete_if-IsPlain false b es p = p

pub IsPlain-nil : IsPlain []
IsPlain-nil = record { no_tasks = (refl, refl); no_shut = refl }

keep_rest-IsPlain : (xs : Bytes) (c : TcpConnection) → IsPlain (keep_rest xs c).1
unfolding keep_rest
keep_rest-IsPlain [] c = IsPlain-nil
keep_rest-IsPlain (x ∷ xs) c = elim (Bool-cases (is_writing c.channel)) [
  | inl w ↦ rw w IsPlain-nil
  | inr w ↦ rw w (record { no_tasks = (refl, refl); no_shut = refl })
]

write_directly-IsPlain :
    (r : SysResult ℕ) (xs : Bytes) (c : TcpConnection)
    → Accepts r xs
    → IsPlain (write_directly r xs c).1
unfolding write_directly
write_directly-IsPlain (done n) xs c h =
    let p =
      complete_if-IsPlain (length xs - n == 0) c.write_complete_set (keep_rest (drop n xs) c).1
        (keep_rest-IsPlain (drop n xs) c) in
    record { no_tasks = p.no_tasks; no_shut = p.no_shut }
write_directly-IsPlain (failed e) xs c h = rw h (keep_rest-IsPlain xs c)

pub send_in_loop-IsPlain :
    (write : Bytes → SysResult ℕ) (xs : Bytes) (c : TcpConnection)
    → Accepts (write xs) xs
    → IsPlain (send_in_loop write xs c).1
unfolding send_in_loop
send_in_loop-IsPlain write xs c h = elim (Bool-cases (is_disconnected c.state)) [
  | inl d ↦ rw d IsPlain-nil
  | inr d ↦ elim (Bool-cases (not (is_writing c.channel) && readable_bytes c.output == 0)) [
    | inl w ↦ rw (d, w) (write_directly-IsPlain (write xs) xs c h)
    | inr w ↦ rw (d, w) (keep_rest-IsPlain xs c)
  ]
]

-- A plain move that keeps the state.
pub Takes-Moves :
    (xs : Bytes) (c c' : TcpConnection) (es : List Effect)
    → is_disconnected c.state ≡ false
    → IsPlain es
    → Takes c xs c' es
    → Moves xs c c' es
Takes-Moves xs c c' es d p t = record {
  stream = t.stream;
  tended = record {
    open_flushes = λ o. t.flushing;
    closed_rests = λ o. absurd (cc (ap is_disconnected t.same_state, d, o));
  };
  past = λ q. ap is_past t.same_state ∙ q;
  gone = λ q. d;
  no_messages = p.no_tasks.1;
  asked = λ q. cc (p.no_tasks.0);
  shut_past = λ q. cc (p.no_shut);
  shut_empty = λ q. cc (p.no_shut);
}

pub open_empty :
    (c : TcpConnection)
    → IsTended c
    → is_writing c.channel ≡ false
    → is_disconnected c.state ≡ false
    → to_string c.output ≡ []
open_empty c t w o = let f = t.open_flushes o in empty_queue f.valid (idle f w)

-- `shutdownInLoop` on a connection that is past `Connected`.
pub shutdown_in_loop-Moves :
    (c : TcpConnection) → IsTended c → is_past c.state ≡ true → Moves [] c c (shutdown_in_loop c)
unfolding shutdown_in_loop
shutdown_in_loop-Moves c t p = elim (Bool-cases (is_writing c.channel)) [
  | inl w ↦ rw w (stay c t)
  | inr w ↦ rw w (record {
    stream = sym (append-nil (to_string c.output));
    tended = t;
    past = λ q. q;
    gone = λ q. q;
    no_messages = refl;
    asked = λ q. cc;
    shut_past = λ q. p;
    shut_empty = λ q o. open_empty c t w o;
  })
]

-- A change of the state alone, to one that is past `Connected` and not closed.
pub to_disconnecting :
    (c : TcpConnection) (t : Task)
    → IsTended c
    → is_disconnected c.state ≡ false
    → pending (t ∷ []) ≡ []
    → Moves [] c (record c { state = disconnecting }) (Effect.queued t ∷ [])
to_disconnecting c t h d n = record {
  stream = sym (append-nil (to_string c.output));
  tended = record {
    open_flushes = λ o.
        let f = h.open_flushes d in record { valid = f.valid; mask = f.mask; listens = f.listens };
    closed_rests = λ o. cc;
  };
  past = λ q. refl;
  gone = λ q. d;
  no_messages = n;
  asked = λ q. refl;
  shut_past = λ q. cc;
  shut_empty = λ q. cc;
}

pub connected_open : (st : ConnectionState) → is_connected st ≡ true → is_disconnected st ≡ false
connected_open connected e = refl
connected_open connecting e = refl
connected_open disconnecting e = refl
connected_open disconnected e = cc

pub shutdown-Moves :
    (in_loop : Bool) (c : TcpConnection)
    → IsTended c
    → Moves [] c (shutdown in_loop c).0 (shutdown in_loop c).1
unfolding shutdown
shutdown-Moves in_loop c t = elim (Bool-cases (is_connected c.state)) [
  | inr n ↦ rw n (stay c t)
  | inl y ↦ rw y (go in_loop (connected_open c.state y))
]
  where
    c' : TcpConnection
    c' = record c { state = disconnecting }

    both_ways : Bool → TcpConnection × List Effect
    both_ways b = if b then (c', shutdown_in_loop c') else (c', Effect.queued shutdown_task ∷ [])

    go : (b : Bool) → is_disconnected c.state ≡ false → Moves [] c (both_ways b).0 (both_ways b).1
    go false d = to_disconnecting c shutdown_task t d refl
    go true d =
        let m = to_disconnecting c shutdown_task t d refl in
        let k = shutdown_in_loop-Moves c' m.tended refl in
        record {
          stream = k.stream;
          tended = k.tended;
          past = λ q. refl;
          gone = λ q. d;
          no_messages = k.no_messages;
          asked = k.asked;
          shut_past = k.shut_past;
          shut_empty = k.shut_empty;
        }
