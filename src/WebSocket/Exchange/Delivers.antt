-- ===== src/WebSocket/Exchange/Delivers.antt =====
-- Messages that stand whole in the buffer are handled in order.
use shero.Common.{
  ℕ, zero, suc, ◌+◌, ◌≤◌, ◌<◌, ◌≡◌, refl, ap, Bool, true, false, List, [], ◌∷◌, ◌++◌, map, ltb,
  length, All, arith, length-append,
}
use shero.Common.Bytes.{Bytes}
use shero.Buffer.{Buffer, readable_bytes}
use shero.Buffer.Invariant.{length-to_string}
use shero.Buffer.Network.{Holds, Holds-readable}
use shero.WebSocket.Frame.{Message, encode_frame, encode_frames}
use shero.WebSocket.Frame.Wire.{head_for, encode_frame-wire, length-head_bytes}
use shero.WebSocket.Frame.{head_bytes, mask_from, xor_from}
use shero.WebSocket.Frame.Wire.{length_bytes}
use shero.WebSocket.Frame.Messages.{joined, texts, IsSendable, CanHold, decode-encode_frames}
use shero.WebSocket.Exchange.{exchanged, put_before, after_decode, exchange}

-- One message as its sender gives it: the frames and the random masks for them.
pub record Sent : Type 0 where
  pub rand : ℕ → ℕ
  pub first : Message
  pub others : List Message

abbrev pub frames : Sent → List Message
frames s = s.first ∷ s.others

-- What the receiver makes of it.
abbrev pub received : Sent → Message
received s = record { opcode = joined 0 (frames s); text = texts (frames s) }

abbrev pub wire : List Sent → Bytes
wire [] = []
wire (s ∷ ss) = encode_frames s.rand (frames s) ++ wire ss

-- At most three data frames, whose texts the receiver can hold.
pub record IsDeliverable (alloc : ℕ → Bool) (s : Sent) : Type 0 where
  pub few : length s.others ≤ 2
  pub good : All IsSendable (frames s)
  pub fits : CanHold alloc (length (texts (frames s)))

length-encode_frame :
    (rand : ℕ → ℕ) (m : Message) (fin : Bool) → 0 < length (encode_frame rand m fin).0
length-encode_frame rand m fin = omega (
  arith,
  ap length (encode_frame-wire rand m fin),
  length-append (head_bytes (head_for m fin)) (
      length_bytes (length m.text)
      ++ (mask_from 8 0 rand ++ xor_from 0 (mask_from 8 0 rand) m.text)),
  length-head_bytes (head_for m fin),
)

length-encode_frames :
    (rand : ℕ → ℕ) (m : Message) (ms : List Message) → 0 < length (encode_frames rand (m ∷ ms))
unfolding encode_frames
length-encode_frames rand m [] = length-encode_frame rand m true
length-encode_frames rand m (n ∷ ms) = omega (
  arith,
  length-append (encode_frame rand m false).0 (encode_frames (λ i. rand (i + 8)) (n ∷ ms)),
  length-encode_frame rand m false,
)

module _ {ℓ} {R : Type ℓ} (alloc : ℕ → Bool) (handle : Message → R) where
  -- A buffer that holds one or more whole messages and nothing else, each of at most three data frames
  -- whose texts the receiver can hold, is emptied, with as much fuel as messages: every message is
  -- handled once, in the order of sending, with its texts joined.
  pub exchange-delivers :
      (fuel : ℕ) (s : Sent) (ss : List Sent) {b : Buffer}
      → length (s ∷ ss) ≤ fuel
      → All (IsDeliverable alloc) (s ∷ ss)
      → Holds b (wire (s ∷ ss))
      → (b' : Buffer) × (exchange alloc handle fuel b
          ≡ exchanged (map (λ t. handle (received t)) (s ∷ ss)) b')
        × Holds b' []
  unfolding exchange after_decode put_before
  exchange-delivers zero s ss le good h = absurd (omega arith)
  exchange-delivers (suc fuel) s [] {b} le good h =
      let (b', e, left) =
        decode-encode_frames alloc s.rand s.first s.others [] good.0.few good.0.good good.0.fits
          h in
      let empty : ltb 0 (readable_bytes b') ≡ false =
        ground (arith, length-to_string left.valid, ap length left.text) in
      (b', rw (e, empty) refl, left)
  exchange-delivers (suc fuel) s (t ∷ ts) {b} le good h =
      let (b1, e1, h1) =
        decode-encode_frames alloc s.rand s.first s.others (wire (t ∷ ts)) good.0.few good.0.good
          good.0.fits h in
      let (b2, e2, h2) = exchange-delivers fuel t ts (omega arith) good.1 h1 in
      let more : ltb 0 (readable_bytes b1) ≡ true = ground (
        arith,
        Holds-readable (encode_frames t.rand (frames t)) (wire ts) h1,
        length-encode_frames t.rand t.first t.others,
      ) in
      (b2, rw (e1, more, e2) refl, h2)
