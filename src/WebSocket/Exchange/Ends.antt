-- ===== src/WebSocket/Exchange/Ends.antt =====
-- The loop over messages ends: every message takes bytes off the buffer.
use shero.Common.{
  ℕ, zero, suc, ◌+◌, ◌-◌, ◌^◌, ◌%◌, ◌≤◌, ◌<◌, ◌≡◌, ap, Bool, true, false, not, ◌||◌, Option, none,
  some, [], ltb, leb, ◌==◌, length, arith, Bool-cases, inl, inr, length-drop, if◌then◌else◌,
}
use shero.Common.Bytes.{Bytes}
use shero.Buffer.{Buffer, readable_bytes, to_string, read_len}
use shero.Buffer.Invariant.{IsValid, length-to_string}
use shero.Buffer.Content.{read_len-to_string, read_len-IsValid}
use shero.WebSocket.Frame.{
  FrameHead, Message, Decoded, null, message, throws, too_long, FrameStep, stop, go_on, read_length,
  read_data, length_step, frame_step, decode_loop, decode, head_size, mask_size, head_of,
  continue_frame, text_frame, bin_frame, ping, pong,
}
use shero.WebSocket.Exchange.{
  Exchanged, exchanged, interrupted, out_of_range, looping, put_before, after_decode, exchange,
}

-- A valid buffer with at most `n` readable bytes.
abbrev pub Holding : ℕ → Buffer → Type 0
Holding n b = IsValid b × (readable_bytes b ≤ n)

read_len-Holding : (size n : ℕ) {b : Buffer} → Holding n b → Holding n (read_len size b).1
read_len-Holding size n {b} (v, h) = (
  read_len-IsValid size v,
  omega (
    arith,
    length-to_string (read_len-IsValid size v),
    ap length (read_len-to_string size v),
    length-drop size (to_string b),
    length-to_string v,
  ),
)

-- What the head leaves.
read_head-Holding :
    {b : Buffer}
    → IsValid b
    → ltb (readable_bytes b) head_size ≡ false
    → Holding (readable_bytes b - 2) (read_len head_size b).1
read_head-Holding {b} v h = (
  read_len-IsValid head_size v,
  omega (
    arith,
    length-to_string (read_len-IsValid head_size v),
    ap length (read_len-to_string head_size v),
    length-drop head_size (to_string b),
    length-to_string v,
  ),
)

abbrev pub Within : ℕ → Decoded → Type 0
Within n (null b) = IsValid b
Within n (message m b) = Holding n b
Within n throws = Unit
Within n too_long = Unit

abbrev StepWithin : ℕ → FrameStep → Type 0
StepWithin n (stop d) = Within n d
StepWithin n (go_on opcode text b) = Holding n b

Within-mono : (m n : ℕ) (d : Decoded) → m ≤ n → Within m d → Within n d
Within-mono m n (null b) h w = w
Within-mono m n (message x b) h w = (w.0, omega (arith, w.1))
Within-mono m n throws h w = tt
Within-mono m n too_long h w = tt

read_length-Holding :
    (payload n : ℕ) {b : Buffer} → Holding n b → Holding n (read_length payload b).1
unfolding read_length
read_length-Holding payload n {b} h = elim (Bool-cases (payload == 126)) [
  | inl p ↦ elim (Bool-cases (ltb (readable_bytes b) 2)) [
    | inl q ↦ rw (p, q) h
    | inr q ↦ rw (p, q) (read_len-Holding 2 n h)
  ]
  | inr p ↦ elim (Bool-cases (payload == 127)) [
    | inl r ↦ elim (Bool-cases (ltb (readable_bytes b) 8)) [
      | inl q ↦ rw (p, r, q) h
      | inr q ↦ rw (p, r, q) (read_len-Holding 8 n h)
    ]
    | inr r ↦ rw (p, r) h
  ]
]

module _ (alloc : ℕ → Bool) where
  read_data-Within :
      (head : FrameHead) (opcode : ℕ) (text : Bytes) (size n : ℕ) {b : Buffer}
      → Holding n b
      → StepWithin n (read_data alloc head opcode text size b)
  unfolding read_data
  read_data-Within head opcode text size n {b} h =
      let b1 = (read_len mask_size b).1 in
      let h1 = read_len-Holding mask_size n h in
      elim (Bool-cases (ltb (readable_bytes b) mask_size)) [
        | inl p ↦ rw p h.0
        | inr p ↦ elim (Bool-cases (alloc ((length text + size) % 2 ^ 64))) [
          | inr q ↦ rw (p, q) tt
          | inl q ↦ elim (Bool-cases (ltb (readable_bytes b1) size)) [
            | inl r ↦ rw (p, q, r) h1.0
            | inr r ↦ elim (Bool-cases (leb (2 ^ 31) (length text + size))) [
              | inl s ↦ rw (p, q, r, s) tt
              | inr s ↦ elim (Bool-cases head.fin) [
                | inl f ↦ rw (p, q, r, s, f) (read_len-Holding size n h1)
                | inr f ↦ rw (p, q, r, s, f) (read_len-Holding size n h1)
              ]
            ]
          ]
        ]
      ]

  length_step-Within :
      (head : FrameHead) (opcode : ℕ) (text : Bytes) (n : ℕ) (o : Option ℕ) (b : Buffer)
      → Holding n b
      → StepWithin n (length_step alloc head opcode text (o, b))
  unfolding length_step
  length_step-Within head opcode text n none b h = h.0
  length_step-Within head opcode text n (some size) b h = read_data-Within head opcode text size n h

  frame_step-Within :
      (head : FrameHead) (opcode : ℕ) (text : Bytes) (n : ℕ) {b : Buffer}
      → Holding n b
      → StepWithin n (frame_step alloc head opcode text b)
  unfolding frame_step
  frame_step-Within head opcode text n {b} h =
      elim (Bool-cases (head.opcode == ping || head.opcode == pong)) [
        | inl p ↦ rw p h
        | inr p ↦
            elim (Bool-cases (
              head.opcode == continue_frame
              || head.opcode == text_frame
              || head.opcode == bin_frame)) [
                | inr q ↦ rw (p, q) h
                | inl q ↦
                    rw (p, q)
                      (elim head.mask
                        as (λ masked. StepWithin n (
                          if not masked
                          then stop (null b)
                          else length_step alloc head opcode text (read_length head.payload b))) [
                            | false ↦ h.0
                            | true ↦
                                length_step-Within head opcode text n (read_length head.payload b).0
                                  (read_length head.payload b).1
                                  (read_length-Holding head.payload n h)
                          ])
              ]
      ]

  after_step-Within :
      (rounds n : ℕ) (s : FrameStep)
      → ((opcode : ℕ) (text : Bytes) (b : Buffer)
          → IsValid b
          → Within (readable_bytes b - 2) (decode_loop alloc rounds opcode text b))
      → StepWithin n s
      → Within n
          (elim s [ stop d ↦ d | go_on opcode text b ↦ decode_loop alloc rounds opcode text b ])
  after_step-Within rounds n (stop d) ih w = w
  after_step-Within rounds n (go_on opcode text b) ih w =
      Within-mono (readable_bytes b - 2) n (decode_loop alloc rounds opcode text b)
        (omega (arith, w.1)) (ih opcode text b w.0)

  decode_loop-Within :
      (rounds opcode : ℕ) (text : Bytes) (b : Buffer)
      → IsValid b
      → Within (readable_bytes b - 2) (decode_loop alloc rounds opcode text b)
  unfolding decode_loop
  decode_loop-Within zero opcode text b v = v
  decode_loop-Within (suc rounds) opcode text b v =
      elim (Bool-cases (ltb (readable_bytes b) head_size)) [
        | inl p ↦ rw p v
        | inr p ↦ rw p (
            after_step-Within rounds (readable_bytes b - 2)
              (frame_step alloc (head_of (read_len head_size b).0) opcode text
                (read_len head_size b).1)
              (decode_loop-Within rounds)
              (frame_step-Within (head_of (read_len head_size b).0) opcode text
                (readable_bytes b - 2) (read_head-Holding v p)))
      ]

  decode-Within : (b : Buffer) → IsValid b → Within (readable_bytes b - 2) (decode alloc b)
  unfolding decode
  decode-Within b v = decode_loop-Within 3 0 [] b v

module _ {ℓ} {R : Type ℓ} where
  -- The loop has ended with a valid buffer, or in the exception, or outside the range.
  abbrev pub HasEnded : Exchanged R → Type 0
  HasEnded (exchanged rs b) = IsValid b
  HasEnded (interrupted rs) = Unit
  HasEnded (out_of_range rs) = Unit
  HasEnded (looping rs) = ⊥

  put_before-HasEnded : (r : R) (x : Exchanged R) → HasEnded x → HasEnded (put_before r x)
  unfolding put_before
  put_before-HasEnded r (exchanged rs b) h = h
  put_before-HasEnded r (interrupted rs) h = tt
  put_before-HasEnded r (out_of_range rs) h = tt
  put_before-HasEnded r (looping rs) h = absurd h

module _ {ℓ} {R : Type ℓ} (alloc : ℕ → Bool) (handle : Message → R) where
  after_decode-HasEnded :
      (fuel n : ℕ) (d : Decoded)
      → n < suc fuel
      → ((b : Buffer)
          → IsValid b
          → readable_bytes b < fuel
          → HasEnded (exchange alloc handle fuel b))
      → Within (n - 2) d
      → HasEnded (after_decode alloc handle (exchange alloc handle fuel) d)
  unfolding after_decode
  after_decode-HasEnded fuel n (null b) lt ih w = w
  after_decode-HasEnded fuel n (message m b) lt ih (v, k) =
      elim (Bool-cases (ltb 0 (readable_bytes b))) [
        | inl p ↦
            rw p (
              put_before-HasEnded (handle m) (exchange alloc handle fuel b) (ih b v (ground arith)))
        | inr p ↦ rw p v
      ]
  after_decode-HasEnded fuel n throws lt ih w = tt
  after_decode-HasEnded fuel n too_long lt ih w = tt

  -- Whatever bytes a valid buffer holds, with one round more than it has readable bytes the loop ends,
  -- and the buffer it leaves is valid.
  pub exchange-HasEnded :
      (fuel : ℕ) (b : Buffer)
      → IsValid b
      → readable_bytes b < fuel
      → HasEnded (exchange alloc handle fuel b)
  unfolding exchange
  exchange-HasEnded zero b v lt = absurd (omega arith)
  exchange-HasEnded (suc fuel) b v lt =
      after_decode-HasEnded fuel (readable_bytes b) (decode alloc b) lt (exchange-HasEnded fuel)
        (decode-Within alloc b v)
