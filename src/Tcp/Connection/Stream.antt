-- ===== src/Tcp/Connection/Stream.antt =====
-- The bytes of a connection: what `send` takes goes to the kernel or to the output buffer, in order,
-- and the channel listens for writing exactly while the buffer holds something.
use Prim.Native.Nat.{bit_and, bit_or}
use shero.Common.{
  ℕ, suc, ◌+◌, ◌-◌, ◌<◌, ◌≤◌, ◌≡◌, refl, sym, ap, ◌∙◌, Bool, true, false, not, List, [], ◌∷◌, ◌++◌,
  append-nil, append_assoc, ltb, ◌==◌, if◌then◌else◌, length, take, drop, take-append-drop,
  length-append, arith, Bool-cases, inl, inr,
}
use shero.Common.Bytes.{Bytes}
use shero.Buffer.{
  Buffer, SysResult, failed, done, readable_bytes, to_string, retrieve, write_len, write_fd,
}
use shero.Buffer.Invariant.{IsValid, length-to_string, write_len-IsValid, retrieve-IsValid}
use shero.Buffer.Content.{write_len-to_string, retrieve-to_string}
use shero.Net.Channel.{Channel, write_event, add_listen_events, del_listen_events, is_writing}
use shero.Tcp.Connection.{
  TcpConnection, Effect, wrote, is_broken, is_disconnected, is_disconnecting, complete_queued,
  keep_rest, write_directly, send_in_loop, shutdown_in_loop, drained, after_retrieve, handle_write,
}

-- The bytes that the kernel accepted.
abbrev pub written : List Effect → Bytes
written [] = []
written (wrote xs ∷ es) = xs ++ written es
written (_ ∷ es) = written es

-- The masks that READ and WRITE make.
pub data IsMask : ℕ → Type 0 where
  nothing : IsMask 0
  reading : IsMask 3
  writing : IsMask 4
  both : IsMask 7

-- The channel listens for writing exactly while the output buffer, which is valid, holds something.
pub record IsFlushing (c : TcpConnection) : Type 0 where
  pub valid : IsValid c.output
  pub mask : IsMask c.channel.event
  pub listens : is_writing c.channel ≡ not (readable_bytes c.output == 0)

pub empty_queue : {b : Buffer} → IsValid b → readable_bytes b ≡ 0 → to_string b ≡ []
empty_queue {b} v h = go (to_string b) (length-to_string v ∙ h)
  where
    go : (xs : Bytes) → length xs ≡ 0 → xs ≡ []
    go [] e = refl
    go (x ∷ xs) e = absurd (omega arith)

writes_now : (ch : Channel) → IsMask ch.event → is_writing (add_listen_events write_event ch) ≡ true
unfolding add_listen_events
writes_now ch m = go ch.event m
  where
    go : (e : ℕ) → IsMask e → not (bit_and (bit_or e write_event) write_event == 0) ≡ true
    go e nothing = refl
    go e reading = refl
    go e writing = refl
    go e both = refl

add-IsMask : (ch : Channel) → IsMask ch.event → IsMask (add_listen_events write_event ch).event
unfolding add_listen_events
add-IsMask ch m = go ch.event m
  where
    go : (e : ℕ) → IsMask e → IsMask (bit_or e write_event)
    go e nothing = writing
    go e reading = both
    go e writing = writing
    go e both = both

-- `xs` was taken: what the kernel accepted and what is kept is what was kept before and `xs`.
pub record Takes (c : TcpConnection) (xs : Bytes) (c' : TcpConnection) (es : List Effect)
    : Type 0 where
  pub stream : written es ++ to_string c'.output ≡ to_string c.output ++ xs
  pub flushing : IsFlushing c'
  pub same_state : c'.state ≡ c.state

grown :
    {b : Buffer} (x : ℕ) (xs : Bytes)
    → IsValid b
    → true ≡ not (readable_bytes (write_len (x ∷ xs) b) == 0)
grown {b} x xs v =
    let longer : readable_bytes (write_len (x ∷ xs) b) ≡ length (to_string b) + suc (length xs) =
      sym (length-to_string (write_len-IsValid (x ∷ xs) v))
      ∙ ap length (write_len-to_string (x ∷ xs) v)
      ∙ length-append (to_string b) (x ∷ xs) in
    ground (arith, longer)

keep_rest-Takes :
    (xs : Bytes) (c : TcpConnection)
    → IsFlushing c
    → Takes c xs (keep_rest xs c).0 (keep_rest xs c).1
unfolding keep_rest
keep_rest-Takes [] c f = record {
  stream = sym (append-nil (to_string c.output));
  flushing = f;
  same_state = refl;
}
keep_rest-Takes (x ∷ xs) c f = elim (Bool-cases (is_writing c.channel)) [
  | inl w ↦ rw w (record {
    stream = write_len-to_string (x ∷ xs) f.valid;
    flushing = record {
      valid = write_len-IsValid (x ∷ xs) f.valid;
      mask = f.mask;
      listens = w ∙ grown x xs f.valid;
    };
    same_state = refl;
  })
  | inr w ↦ rw w (record {
    stream = write_len-to_string (x ∷ xs) f.valid;
    flushing = record {
      valid = write_len-IsValid (x ∷ xs) f.valid;
      mask = add-IsMask c.channel f.mask;
      listens = writes_now c.channel f.mask ∙ grown x xs f.valid;
    };
    same_state = refl;
  })
]

-- `::write` as documented: it takes no more than it is offered. Of its errors, those that break the
-- connection are left out.
abbrev pub Accepts : SysResult ℕ → Bytes → Type 0
Accepts (done n) xs = n ≤ length xs
Accepts (failed e) xs = is_broken e ≡ false

written_complete : (b : Bool) (es : List Effect) → written (complete_queued b ++ es) ≡ written es
written_complete true es = refl
written_complete false es = refl

written-if :
    (zero_left set : Bool) (es : List Effect)
    → written ((if zero_left then complete_queued set else []) ++ es) ≡ written es
written-if true set es = written_complete set es
written-if false set es = refl

write_directly-Takes :
    (r : SysResult ℕ) (xs : Bytes) (c : TcpConnection)
    → IsFlushing c
    → to_string c.output ≡ []
    → Accepts r xs
    → Takes c xs (write_directly r xs c).0 (write_directly r xs c).1
unfolding write_directly
write_directly-Takes (done n) xs c f e h =
    let k = keep_rest-Takes (drop n xs) c f in
    let kept = keep_rest (drop n xs) c in
    record {
      stream =
          ap (λ t. (take n xs ++ t) ++ to_string kept.0.output)
            (written-if (length xs - n == 0) c.write_complete_set kept.1)
          ∙ append_assoc (take n xs) (written kept.1) (to_string kept.0.output)
          ∙ ap (λ t. take n xs ++ t) (k.stream ∙ ap (λ t. t ++ drop n xs) e)
          ∙ take-append-drop n xs
          ∙ ap (λ t. t ++ xs) (sym e);
      flushing = k.flushing;
      same_state = k.same_state;
    }
write_directly-Takes (failed err) xs c f e h = rw h (keep_rest-Takes xs c f)

pub idle :
    {c : TcpConnection} → IsFlushing c → is_writing c.channel ≡ false → readable_bytes c.output ≡ 0
idle {c} f w = ground (arith, f.listens, w)

-- On a connection that is not disconnected and whose channel listens for writing exactly while its
-- valid output buffer holds something, `sendInLoop` loses and reorders nothing, unless the kernel
-- reports a broken pipe or a reset: what the kernel accepted, followed by the output buffer, is what
-- the buffer held before followed by the data. It keeps the state and the agreement.
pub send_in_loop-Takes :
    (write : Bytes → SysResult ℕ) (xs : Bytes) (c : TcpConnection)
    → IsFlushing c
    → is_disconnected c.state ≡ false
    → Accepts (write xs) xs
    → Takes c xs (send_in_loop write xs c).0 (send_in_loop write xs c).1
unfolding send_in_loop
send_in_loop-Takes write xs c f open_state h = elim (Bool-cases (is_writing c.channel)) [
  | inl w ↦ rw (open_state, w) (keep_rest-Takes xs c f)
  | inr w ↦
      rw (open_state, w, idle f w)
        (write_directly-Takes (write xs) xs c f (empty_queue f.valid (idle f w)) h)
]

pub stops : (ch : Channel) → IsMask ch.event → is_writing (del_listen_events write_event ch) ≡ false
unfolding del_listen_events
stops ch m = go ch.event m
  where
    go : (e : ℕ) → IsMask e → not (bit_and (bit_and e 4294967291) write_event == 0) ≡ false
    go e nothing = refl
    go e reading = refl
    go e writing = refl
    go e both = refl

del-IsMask : (ch : Channel) → IsMask ch.event → IsMask (del_listen_events write_event ch).event
unfolding del_listen_events
del-IsMask ch m = go ch.event m
  where
    go : (e : ℕ) → IsMask e → IsMask (bit_and e 4294967291)
    go e nothing = nothing
    go e reading = reading
    go e writing = nothing
    go e both = reading

written-shutdown_in_loop :
    (b : Bool) (c : TcpConnection) → written (if b then shutdown_in_loop c else []) ≡ []
unfolding shutdown_in_loop
written-shutdown_in_loop true c = elim (Bool-cases (is_writing c.channel)) [
  | inl w ↦ rw w refl
  | inr w ↦ rw w refl
]
written-shutdown_in_loop false c = refl

-- `drained` writes nothing.
pub written-drained : (c : TcpConnection) → written (drained c).1 ≡ []
unfolding drained
written-drained c =
    written_complete c.write_complete_set _
    ∙ written-shutdown_in_loop (is_disconnecting c.state)
        (record c { channel = del_listen_events write_event c.channel })

drained-IsFlushing :
    (c : TcpConnection)
    → IsValid c.output
    → IsMask c.channel.event
    → readable_bytes c.output ≡ 0
    → IsFlushing (drained c).0
unfolding drained
drained-IsFlushing c v m e = record {
  valid = v;
  mask = del-IsMask c.channel m;
  listens = stops c.channel m ∙ ground (arith, e);
}

-- After `n` bytes of the output went to the kernel.
after_retrieve-Takes :
    (n : ℕ) (c : TcpConnection)
    → IsFlushing c
    → is_writing c.channel ≡ true
    → let c' = record c { output = retrieve n c.output } in
      let wr = wrote (take n (to_string c.output)) ∷ [] in
      Takes c [] (after_retrieve wr c').0 (after_retrieve wr c').1
unfolding after_retrieve
after_retrieve-Takes n c f w =
    let c' = record c { output = retrieve n c.output } in
    let q = to_string c.output in
    let v = retrieve-IsValid n f.valid in
    let split : take n q ++ to_string c'.output ≡ q ++ [] =
      ap (λ t. take n q ++ t) (retrieve-to_string n f.valid)
      ∙ take-append-drop n q
      ∙ sym (append-nil q) in
    elim (Bool-cases (readable_bytes c'.output == 0)) [
      | inl e ↦ rw e (record {
        stream =
            ap (λ t. (take n q ++ t) ++ to_string c'.output) (written-drained c')
            ∙ ap (λ t. t ++ to_string c'.output) (append-nil (take n q))
            ∙ split;
        flushing = drained-IsFlushing c' v f.mask (ground (arith, e));
        same_state = refl;
      })
      | inr e ↦ rw e (record {
        stream = ap (λ t. t ++ to_string c'.output) (append-nil (take n q)) ∙ split;
        flushing = record { valid = v; mask = f.mask; listens = w ∙ ground (arith, e) };
        same_state = refl;
      })
    ]

-- Where the channel listens for writing and `::write` takes some bytes of the output buffer,
-- `handleWrite` sends them in order and keeps the rest, and the channel goes on listening for
-- writing exactly if something is left.
pub handle_write-Takes :
    (write : Bytes → SysResult ℕ) (n : ℕ) (c : TcpConnection)
    → IsFlushing c
    → is_writing c.channel ≡ true
    → write (to_string c.output) ≡ done n
    → 0 < n
    → Takes c [] (handle_write write c).0 (handle_write write c).1
unfolding handle_write write_fd
handle_write-Takes write n c f w e h =
    let some_written : ltb 0 n ≡ true = ground arith in
    rw (w, e, some_written) (after_retrieve-Takes n c f w)
