-- ===== src/WebSocket/Frame/RoundTrip.antt =====
-- Decoding what was encoded: one frame, a message of up to three frames, and more than three.
use shero.Common.{
  ℕ, suc, ◌+◌, ◌%◌, ◌^◌, ◌≤◌, ◌<◌, ◌≡◌, refl, sym, ap, ◌∙◌, Bool, true, false, some, ◌++◌, arith,
  ltb, leb, ◌==◌, if◌then◌else◌, length, All, append_assoc, ◌&&◌, ◌||◌, not,
}
use shero.Common.Bytes.{Bytes, IsByte}
use shero.Buffer.{Buffer, readable_bytes, read_len}
use shero.Buffer.Fixed.{be_bytes, byteswap, of_le, length-be_bytes, byteswap-of_le-be_bytes}
use shero.Buffer.Network.{Holds, Holds-read_len, Holds-readable}
use shero.WebSocket.Frame.{
  Message, head_bytes, mask_from, mask_size, xor_from, payload_of, message, read_length, FrameStep,
  stop, go_on, read_data, frame_step, decode_loop, continue_frame, text_frame, bin_frame, ping,
  pong, head_size,
}
use shero.WebSocket.Frame.Wire.{
  head_for, length_bytes, wire, LengthForm, short, medium, long, length_form, length-mask_from,
  mask_from-IsByte, xor_from-xor_from, length-xor_from, length-head_bytes, head_of-head_bytes,
  not_eq, not_eq_next,
}

not_above : (n : ℕ) → n < 2 ^ 31 → leb (2 ^ 31) n ≡ false
not_above n h = ground arith

pub not_short : (n k : ℕ) → k ≤ n → ltb n k ≡ false
not_short n k h = ground arith

-- A length in `k` bytes is read back.
pub swapped_back :
    (k size : ℕ) {b : Buffer} (rest : Bytes)
    → size < 256 ^ k
    → Holds b (be_bytes k size ++ rest)
    → (byteswap k (of_le (read_len k b).0) ≡ size) × Holds (read_len k b).1 rest
swapped_back k size rest h hb =
    let (got, left) = Holds-read_len k (be_bytes k size) rest hb (sym (length-be_bytes k size)) in
    (ap (λ t. byteswap k (of_le t)) got ∙ byteswap-of_le-be_bytes k size h, left)

pub room_for :
    (k size : ℕ) {b : Buffer} (rest : Bytes)
    → Holds b (be_bytes k size ++ rest)
    → ltb (readable_bytes b) k ≡ false
room_for k size {b} rest h =
    not_short (readable_bytes b) k
      (omega (arith, Holds-readable (be_bytes k size) rest h, length-be_bytes k size))

-- The length that the head announces, however it is spelled.
read_length-length_bytes :
    (size : ℕ) {b : Buffer} (rest : Bytes)
    → size < 2 ^ 64
    → Holds b (length_bytes size ++ rest)
    → (b' : Buffer) × (read_length (payload_of size) b ≡ (some size, b')) × Holds b' rest
unfolding read_length
read_length-length_bytes size {b} rest hs h = go (length_form size)
  where
    go :
        LengthForm size
        → (b' : Buffer) × (read_length (payload_of size) b ≡ (some size, b')) × Holds b' rest
    go (short lt p l) = (b, rw (p, not_eq size 126 lt, not_eq_next size lt) refl, rw l at h)
    go (medium lt p l) =
        let h2 : Holds b (be_bytes 2 size ++ rest) = rw l at h in
        let (v, left) = swapped_back 2 size rest (omega arith) h2 in
        ((read_len 2 b).1, rw (p, room_for 2 size rest h2, v) refl, left)
    go (long p l) =
        let h8 : Holds b (be_bytes 8 size ++ rest) = rw l at h in
        let (v, left) = swapped_back 8 size rest (omega arith) h8 in
        ((read_len 8 b).1, rw (p, room_for 8 size rest h8, v) refl, left)

-- The opcode that a message has after a frame with opcode `next`.
abbrev pub joined_opcode : ℕ → ℕ → ℕ
joined_opcode opcode next = if opcode == 0 && not (next == continue_frame) then next else opcode

-- What a data frame leads to.
abbrev pub after_frame : Bool → ℕ → Bytes → Buffer → FrameStep
after_frame fin opcode text b =
    if fin then stop (message (record { opcode = opcode; text = text }) b) else go_on opcode text b

-- The data frames that the decoder takes.
abbrev pub IsData : ℕ → Type 0
IsData opcode = (continue_frame ≤ opcode) × (opcode ≤ bin_frame)

pub not_control : (n : ℕ) → IsData n → ((n == ping) || (n == pong)) ≡ false
not_control n h = ground arith

pub is_data :
    (n : ℕ) → IsData n → ((n == continue_frame) || (n == text_frame) || (n == bin_frame)) ≡ true
is_data n h = ground arith

module _ (alloc : ℕ → Bool) (rand : ℕ → ℕ) where
  -- From the mask on.
  read_data_lem :
      (m : Message) (fin : Bool) (opcode : ℕ) (text : Bytes) {b : Buffer} (rest : Bytes)
      → All IsByte m.text
      → length text + length m.text < 2 ^ 31
      → alloc (length text + length m.text) ≡ true
      → Holds b ((mask_from 8 0 rand ++ xor_from 0 (mask_from 8 0 rand) m.text) ++ rest)
      → (b' : Buffer) × (read_data alloc (head_for m fin) opcode text (length m.text) b
          ≡ after_frame fin (joined_opcode opcode m.opcode) (text ++ m.text) b')
        × Holds b' rest
  unfolding read_data
  read_data_lem m fin opcode text {b} rest hb small ok h =
      let mask = mask_from 8 0 rand in
      let masked = xor_from 0 mask m.text in
      let h1 : Holds b (mask ++ (masked ++ rest)) = rw append_assoc at h in
      let (key, h2) =
        Holds-read_len mask_size mask (masked ++ rest) h1 (sym (length-mask_from 8 0 rand)) in
      let (got, h3) =
        Holds-read_len (length m.text) masked rest h2 (sym (length-xor_from 0 mask m.text)) in
      let room : ltb (readable_bytes b) mask_size ≡ false =
        not_short (readable_bytes b) mask_size
          (omega (arith, Holds-readable mask (masked ++ rest) h1, length-mask_from 8 0 rand)) in
      let total : (length text + length m.text) % 2 ^ 64 ≡ length text + length m.text =
        omega arith in
      let enough : ltb (readable_bytes (read_len mask_size b).1) (length m.text) ≡ false =
        not_short (readable_bytes (read_len mask_size b).1) (length m.text)
          (omega (arith, Holds-readable masked rest h2, length-xor_from 0 mask m.text)) in
      (
        (read_len (length m.text) (read_len mask_size b).1).1,
        rw
            (
              room,
              total,
              ok,
              enough,
              not_above (length text + length m.text) small,
              key,
              got,
              xor_from-xor_from 0 mask m.text (mask_from-IsByte 8 0 rand) hb,
            )
            refl,
        h3,
      )

  -- The `switch` on an encoded data frame.
  frame_step_lem :
      (m : Message) (fin : Bool) (opcode : ℕ) (text : Bytes) {b : Buffer} (rest : Bytes)
      → IsData m.opcode
      → All IsByte m.text
      → length text + length m.text < 2 ^ 31
      → alloc (length text + length m.text) ≡ true
      → Holds b (
          length_bytes (length m.text)
          ++ ((mask_from 8 0 rand ++ xor_from 0 (mask_from 8 0 rand) m.text) ++ rest))
      → (b' : Buffer) × (frame_step alloc (head_for m fin) opcode text b
          ≡ after_frame fin (joined_opcode opcode m.opcode) (text ++ m.text) b')
        × Holds b' rest
  unfolding frame_step
  frame_step_lem m fin opcode text {b} rest data_op hb small ok h =
      let (b1, found, h1) = read_length-length_bytes (length m.text) _ (omega arith) h in
      let (b2, e, h2) = read_data_lem m fin opcode text rest hb small ok h1 in
      (b2, rw (not_control m.opcode data_op, is_data m.opcode data_op, found) e, h2)

  -- One round of the loop on an encoded data frame.
  pub frame_round :
      (rounds : ℕ) (m : Message) (fin : Bool) (opcode : ℕ) (text : Bytes) {b : Buffer}
      (rest : Bytes)
      → IsData m.opcode
      → All IsByte m.text
      → length text + length m.text < 2 ^ 31
      → alloc (length text + length m.text) ≡ true
      → Holds b (wire rand m fin ++ rest)
      → (b' : Buffer) × (decode_loop alloc (suc rounds) opcode text b
          ≡ elim (after_frame fin (joined_opcode opcode m.opcode) (text ++ m.text) b') [
            | stop d ↦ d
            | go_on opcode' text' b2 ↦ decode_loop alloc rounds opcode' text' b2
          ])
        × Holds b' rest
  unfolding decode_loop
  frame_round rounds m fin opcode text {b} rest data_op hb small ok h =
      let body : Bytes =
        length_bytes (length m.text)
        ++ ((mask_from 8 0 rand ++ xor_from 0 (mask_from 8 0 rand) m.text) ++ rest) in
      let whole : wire rand m fin ++ rest ≡ head_bytes (head_for m fin) ++ body =
        simp append_assoc in
      let h0 : Holds b (head_bytes (head_for m fin) ++ body) = rw whole at h in
      let (hd, h1) =
        Holds-read_len head_size (head_bytes (head_for m fin)) body h0
          (sym (length-head_bytes (head_for m fin))) in
      let room : ltb (readable_bytes b) head_size ≡ false = not_short (readable_bytes b) head_size (
        omega (
          arith,
          Holds-readable (head_bytes (head_for m fin)) body h0,
          length-head_bytes (head_for m fin),
        )) in
      let (b', step, left) = frame_step_lem m fin opcode text rest data_op hb small ok h1 in
      (b', rw (room, hd, head_of-head_bytes m fin (omega arith), step) refl, left)
