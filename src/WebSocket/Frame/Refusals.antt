-- ===== src/WebSocket/Frame/Refusals.antt =====
-- Frames that `DecodeWSFrameMessage` does not accept.
use shero.Common.{
  ℕ, ◌+◌, ◌*◌, ◌%◌, ◌^◌, ◌<◌, ◌≡◌, refl, sym, Bool, true, false, [], ◌++◌, arith, ltb, length,
}
use shero.Common.Bytes.{Bytes}
use shero.Buffer.{Buffer, readable_bytes, read_len}
use shero.Buffer.Fixed.{be_bytes}
use shero.Buffer.Network.{Holds, Holds-read_len, Holds-readable}
use shero.WebSocket.Frame.{
  FrameHead, bit, bit_at, head_bytes, head_of, head_size, mask_size, Decoded, null, throws,
  read_length, stop, read_data, length_step, frame_step, decode_loop, decode,
}
use shero.WebSocket.Frame.Wire.{length-head_bytes}
use shero.WebSocket.Frame.RoundTrip.{
  IsData, swapped_back, room_for, not_short, not_control, is_data,
}

bit_at_zero : (x : Bool) (n : ℕ) → bit_at 0 (bit x + 2 * n) ≡ x
bit_at_zero true n = ground arith
bit_at_zero false n = ground arith

-- A head of four opcode bits and seven payload bits survives its two bytes.
head_of-head_bytes_any :
    (h : FrameHead) → h.opcode < 16 → h.payload < 128 → head_of (head_bytes h) ≡ h
unfolding head_of head_bytes
head_of-head_bytes_any h ho hp = ground arith

module _ (alloc : ℕ → Bool) where
  -- The first round of `decode` on a buffer that starts with a data head.
  first_round :
      (head : FrameHead) {b : Buffer} (rest : Bytes) (d : Decoded)
      → head.opcode < 16
      → head.payload < 128
      → Holds b (head_bytes head ++ rest)
      → frame_step alloc head 0 [] (read_len head_size b).1 ≡ stop d
      → decode alloc b ≡ d
  unfolding decode decode_loop
  first_round head {b} rest d ho hp h e =
      let (got, _) =
        Holds-read_len head_size (head_bytes head) rest h (sym (length-head_bytes head)) in
      let room : ltb (readable_bytes b) head_size ≡ false =
        not_short (readable_bytes b) head_size
          (omega (arith, Holds-readable (head_bytes head) rest h, length-head_bytes head)) in
      rw (room, got, head_of-head_bytes_any head ho hp, e) refl

  -- A data frame whose head lacks the mask bit is refused: `nullptr`, with only the head taken.
  pub decode_unmasked :
      (head : FrameHead) {b : Buffer} (rest : Bytes)
      → IsData head.opcode
      → head.payload < 128
      → head.mask ≡ false
      → Holds b (head_bytes head ++ rest)
      → (b' : Buffer) × (decode alloc b ≡ null b') × Holds b' rest
  unfolding frame_step
  decode_unmasked head {b} rest hd hp hm h =
      let (_, left) =
        Holds-read_len head_size (head_bytes head) rest h (sym (length-head_bytes head)) in
      (
        (read_len head_size b).1,
        first_round head rest (null (read_len head_size b).1) (omega arith) hp h
            (rw (not_control head.opcode hd, is_data head.opcode hd, hm) refl),
        left,
      )

  -- A masked data frame that announces a length which the allocator refuses ends in the exception
  -- of `data.resize`, however few bytes of the text follow: the check that they are there comes
  -- after the resize.
  pub decode_huge :
      (head : FrameHead) (size : ℕ) (mask : Bytes) {b : Buffer} (rest : Bytes)
      → IsData head.opcode
      → head.payload ≡ 127
      → head.mask ≡ true
      → size < 2 ^ 64
      → length mask ≡ mask_size
      → alloc size ≡ false
      → Holds b (head_bytes head ++ (be_bytes 8 size ++ (mask ++ rest)))
      → decode alloc b ≡ throws
  unfolding frame_step length_step read_length read_data
  decode_huge head size mask {b} rest hd hp hm hs hl no_room h =
      let (_, h1) = Holds-read_len head_size (head_bytes head) _ h (sym (length-head_bytes head)) in
      let (v, h2) = swapped_back 8 size (mask ++ rest) (omega arith) h1 in
      let room : ltb (readable_bytes (read_len 8 (read_len head_size b).1).1) mask_size ≡ false =
        not_short _ mask_size (omega (arith, Holds-readable mask rest h2)) in
      let total : (0 + size) % 2 ^ 64 ≡ size = omega arith in
      first_round head _ throws (omega arith) (omega arith) h (
        rw
          (
            not_control head.opcode hd,
            is_data head.opcode hd,
            hm,
            hp,
            room_for 8 size (mask ++ rest) h1,
            v,
            room,
            total,
            no_room,
          )
          refl)
