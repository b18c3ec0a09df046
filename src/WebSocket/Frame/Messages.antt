-- ===== src/WebSocket/Frame/Messages.antt =====
-- Whole messages through `EncodeWSFrameMessage` and `DecodeWSFrameMessage`.
use shero.Common.{
  ℕ, zero, suc, ◌+◌, ◌^◌, ◌≤◌, ◌<◌, ◌≡◌, refl, sym, ap, ◌∙◌, Bool, true, false, List, [], ◌∷◌, ◌++◌,
  subst, arith, length, All, append_assoc, append-nil, length-append,
}
use shero.Common.Bytes.{Bytes, IsByte}
use shero.Buffer.{Buffer}
use shero.Buffer.Network.{Holds}
use shero.WebSocket.Frame.{Message, encode_frames, null, message, decode_loop, decode}
use shero.WebSocket.Frame.Wire.{encode_frame-wire}
use shero.WebSocket.Frame.RoundTrip.{joined_opcode, IsData, frame_round}

-- The opcode and the text of a message sent as the frames `ms`.
abbrev pub joined : ℕ → List Message → ℕ
joined opcode [] = opcode
joined opcode (m ∷ ms) = joined (joined_opcode opcode m.opcode) ms

abbrev pub texts : List Message → Bytes
texts [] = []
texts (m ∷ ms) = m.text ++ texts ms

-- A message of the data opcodes with bytes for its text.
pub record IsSendable (m : Message) : Type 0 where
  pub kind : IsData m.opcode
  pub bytes : All IsByte m.text

-- What the decoder can hold: the allocator serves, and the `int32_t` counters stay in range.
pub record CanHold (alloc : ℕ → Bool) (total : ℕ) : Type 0 where
  pub serves : (n : ℕ) → n ≤ total → alloc n ≡ true
  pub in_range : total < 2 ^ 31

module _ (alloc : ℕ → Bool) where
  -- A frame that is not the last: one round takes it and goes on.
  inner_frame :
      (rounds : ℕ) (rand : ℕ → ℕ) (m n : Message) (ms : List Message) (opcode : ℕ) (text : Bytes)
      {b : Buffer} (rest : Bytes) {total : ℕ}
      → IsSendable m
      → CanHold alloc total
      → length text + length m.text ≤ total
      → Holds b (encode_frames rand (m ∷ n ∷ ms) ++ rest)
      → (b' : Buffer) × (decode_loop alloc (suc rounds) opcode text b
          ≡ decode_loop alloc rounds (joined_opcode opcode m.opcode) (text ++ m.text) b')
        × Holds b' (encode_frames (λ i. rand (i + 8)) (n ∷ ms) ++ rest)
  unfolding encode_frames
  inner_frame rounds rand m n ms opcode text rest good fits size h =
      frame_round alloc rand rounds m false opcode text
        (encode_frames (λ i. rand (i + 8)) (n ∷ ms) ++ rest) good.kind good.bytes
        (omega (arith, fits.in_range)) (fits.serves _ size)
        (rw (encode_frame-wire, append_assoc) at h)

  last_frame :
      (rounds : ℕ) (rand : ℕ → ℕ) (m : Message) (opcode : ℕ) (text : Bytes) {b : Buffer}
      (rest : Bytes) {total : ℕ}
      → IsSendable m
      → CanHold alloc total
      → length text + length m.text ≤ total
      → Holds b (encode_frames rand (m ∷ []) ++ rest)
      → (b' : Buffer) × (decode_loop alloc (suc rounds) opcode text b
          ≡ message (record { opcode = joined_opcode opcode m.opcode; text = text ++ m.text }) b')
        × Holds b' rest
  unfolding encode_frames
  last_frame rounds rand m opcode text rest good fits size h =
      frame_round alloc rand rounds m true opcode text rest good.kind good.bytes
        (omega (arith, fits.in_range)) (fits.serves _ size) (rw encode_frame-wire at h)

  decode_loop-encode_frames :
      (rounds : ℕ) (rand : ℕ → ℕ) (m : Message) (ms : List Message) (opcode : ℕ) (text : Bytes)
      {b : Buffer} (rest : Bytes)
      → length ms < rounds
      → All IsSendable (m ∷ ms)
      → CanHold alloc (length text + length (texts (m ∷ ms)))
      → Holds b (encode_frames rand (m ∷ ms) ++ rest)
      → (b' : Buffer) × (decode_loop alloc rounds opcode text b
          ≡ message (record { opcode = joined opcode (m ∷ ms); text = text ++ texts (m ∷ ms) }) b')
        × Holds b' rest
  decode_loop-encode_frames zero rand m ms opcode text rest lt good fits h = absurd (omega arith)
  decode_loop-encode_frames (suc rounds) rand m [] opcode text {b} rest lt good fits h =
      let (b', e, left) =
        last_frame rounds rand m opcode text rest good.0 fits
          (omega (arith, length-append m.text [])) h in
      (
        b',
        e
            ∙ ap (λ t. message (record { opcode = joined opcode (m ∷ []); text = text ++ t }) b')
                (sym (append-nil m.text)),
        left,
      )
  decode_loop-encode_frames (suc rounds) rand m (n ∷ ms) opcode text {b} rest lt good fits h =
      let (b', e, left) =
        inner_frame rounds rand m n ms opcode text rest good.0 fits
          (omega (arith, length-append m.text (texts (n ∷ ms)))) h in
      let same : length text + length (texts (m ∷ n ∷ ms))
          ≡ length (text ++ m.text) + length (texts (n ∷ ms)) =
        omega (arith, length-append text m.text, length-append m.text (texts (n ∷ ms))) in
      let (b2, e2, left2) =
        decode_loop-encode_frames rounds (λ i. rand (i + 8)) n ms (joined_opcode opcode m.opcode)
          (text ++ m.text) rest (omega arith) good.1 (subst (CanHold alloc) same fits) left in
      (
        b2,
        e
            ∙ e2
            ∙ ap (λ t. message (record { opcode = joined opcode (m ∷ n ∷ ms); text = t }) b2)
                (append_assoc text m.text (texts (n ∷ ms))),
        left2,
      )

  -- A message of one to three data frames, sent by `EncodeWSFrameMessage(datas)` under any random
  -- masks, is decoded by one call to the opcode of its first frame that is not CONTINUE (0 if there
  -- is none) and to the concatenation of the texts; the bytes that follow it stay in the buffer.
  -- The decoder must be able to hold the whole text.
  pub decode-encode_frames :
      (rand : ℕ → ℕ) (m : Message) (ms : List Message) {b : Buffer} (rest : Bytes)
      → length ms ≤ 2
      → All IsSendable (m ∷ ms)
      → CanHold alloc (length (texts (m ∷ ms)))
      → Holds b (encode_frames rand (m ∷ ms) ++ rest)
      → (b' : Buffer) × (decode alloc b
          ≡ message (record { opcode = joined 0 (m ∷ ms); text = texts (m ∷ ms) }) b')
        × Holds b' rest
  unfolding decode
  decode-encode_frames rand m ms rest few good fits h =
      decode_loop-encode_frames 3 rand m ms 0 [] rest (omega arith) good
        (subst (CanHold alloc) (omega arith) fits) h

  -- A message of more than three frames is never delivered: one call takes its first three frames
  -- off the buffer and ends with `nullptr`.
  pub decode_too_many :
      (rand : ℕ → ℕ) (m1 m2 m3 m4 : Message) (ms : List Message) {b : Buffer} (rest : Bytes)
      → All IsSendable (m1 ∷ m2 ∷ m3 ∷ [])
      → CanHold alloc (length (texts (m1 ∷ m2 ∷ m3 ∷ [])))
      → Holds b (encode_frames rand (m1 ∷ m2 ∷ m3 ∷ m4 ∷ ms) ++ rest)
      → (b' : Buffer) × (decode alloc b ≡ null b')
        × Holds b' (encode_frames (λ i. rand (i + 8 + 8 + 8)) (m4 ∷ ms) ++ rest)
  unfolding decode
  decode_too_many rand m1 m2 m3 m4 ms rest (g1, (g2, (g3, _))) fits h =
      let total : length (texts (m1 ∷ m2 ∷ m3 ∷ []))
          ≡ length m1.text + length m2.text + length m3.text =
        omega (
          arith,
          length-append m1.text (m2.text ++ (m3.text ++ [])),
          length-append m2.text (m3.text ++ []),
          length-append m3.text [],
        ) in
      let two : length (m1.text ++ m2.text) ≡ length m1.text + length m2.text =
        length-append m1.text m2.text in
      let (b1, e1, h1) =
        inner_frame 2 rand m1 m2 (m3 ∷ m4 ∷ ms) 0 [] rest g1 fits (omega (arith, total)) h in
      let (b2, e2, h2) =
        inner_frame 1 (λ i. rand (i + 8)) m2 m3 (m4 ∷ ms) (joined 0 (m1 ∷ [])) m1.text rest g2 fits
          (omega (arith, total)) h1 in
      let (b3, e3, h3) =
        inner_frame 0 (λ i. rand (i + 8 + 8)) m3 m4 ms (joined 0 (m1 ∷ m2 ∷ []))
          (m1.text ++ m2.text) rest g3 fits (omega (arith, total, two)) h2 in
      (b3, e1 ∙ e2 ∙ e3 ∙ unfold decode_loop in refl, h3)
