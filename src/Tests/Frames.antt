-- ===== src/Tests/Frames.antt =====
-- WebSocket frames: concrete runs.
use shero.Common.{
  ℕ, ◌+◌, ◌<◌, ◌≡◌, refl, Bool, true, false, [], ◌∷◌, ◌++◌, ltb, arith, ◌^◌, replicate,
}
use shero.Common.Bytes.{Bytes, codes}
use shero.Buffer.{Buffer}
use shero.Buffer.Fixed.{be_bytes}
use shero.Buffer.Network.{Holds}
use shero.WebSocket.Frame.{
  FrameHead, Message, head_bytes, encode_frames, message, null, throws, decode, text_frame,
  continue_frame, mask_size,
}
use shero.WebSocket.Frame.Messages.{
  IsSendable, CanHold, joined, texts, decode-encode_frames, decode_too_many,
}
use shero.WebSocket.Frame.Refusals.{decode_huge}
use shero.Tests.{holding, holding-Holds}

abbrev part : Message
part = record { opcode = text_frame; text = codes "ab" }

abbrev tail : Message
tail = record { opcode = continue_frame; text = codes "c" }

-- An allocator with a megabyte.
abbrev megabyte : ℕ → Bool
megabyte n = ltb n 1048576

abbrev counter : ℕ → ℕ
counter i = 7 + i

part-IsSendable : IsSendable part
part-IsSendable = record { kind = omega arith; bytes = (omega arith, (omega arith, tt)) }

tail-IsSendable : IsSendable tail
tail-IsSendable = record { kind = omega arith; bytes = (omega arith, tt) }

megabyte-CanHold : (n : ℕ) → n < 1048576 → CanHold megabyte n
megabyte-CanHold n h = record { serves = λ k le. ground arith; in_range = omega arith }

abbrev two_frames : Bytes
two_frames = encode_frames counter (part ∷ tail ∷ []) ++ codes "next"

decode-encode_frames_example :
    (b' : Buffer) × (decode megabyte (holding two_frames)
      ≡ message
          (record { opcode = joined 0 (part ∷ tail ∷ []); text = texts (part ∷ tail ∷ []) })
          b')
    × Holds b' (codes "next")
decode-encode_frames_example =
    decode-encode_frames megabyte counter part (tail ∷ []) {b = holding two_frames} (codes "next")
      (omega arith) (part-IsSendable, (tail-IsSendable, tt)) (megabyte-CanHold 3 (omega arith))
      (holding-Holds two_frames)

abbrev four_frames : Bytes
four_frames = encode_frames counter (part ∷ part ∷ part ∷ tail ∷ []) ++ []

decode_too_many_example :
    (b' : Buffer) × (decode megabyte (holding four_frames) ≡ null b')
    × Holds b' (encode_frames (λ i. counter (i + 8 + 8 + 8)) (tail ∷ []) ++ [])
decode_too_many_example =
    decode_too_many megabyte counter part part part tail [] {b = holding four_frames} []
      (part-IsSendable, (part-IsSendable, (part-IsSendable, tt))) (megabyte-CanHold 6 (omega arith))
      (holding-Holds four_frames)

abbrev bare_head : FrameHead
bare_head = record {
  fin = true;
  rsv1 = false;
  rsv2 = false;
  rsv3 = false;
  opcode = text_frame;
  mask = false;
  payload = 2;
}

abbrev huge_head : FrameHead
huge_head = record bare_head { mask = true; payload = 127 }

abbrev huge : Bytes
huge = head_bytes huge_head ++ (be_bytes 8 (2 ^ 62) ++ (replicate mask_size 0 ++ []))

decode_huge_example : decode megabyte (holding huge) ≡ throws
decode_huge_example =
    decode_huge megabyte huge_head (2 ^ 62) (replicate mask_size 0) {b = holding huge} []
      (omega arith) refl refl (omega arith) refl refl (holding-Holds huge)
