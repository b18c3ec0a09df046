-- ===== src/WebSocket/Frame.antt =====
-- shero/net/websocket/WSStructure.h and WSStructure.cc: frames on the wire.
-- The bit fields of `WSFrameHead` are laid out from the lowest bit on, as on x86-64: two bytes.
pub mod Wire
pub mod RoundTrip
pub mod Messages
pub mod Refusals
use Prim.Native.Nat.{bit_xor}
use shero.Common.{
  ℕ, zero, suc, ◌+◌, ◌*◌, ◌/◌, ◌%◌, ◌^◌, Bool, true, false, ◌||◌, not, Option, none, some, List, [],
  ◌∷◌, ◌++◌, ltb, leb, ◌==◌, if◌then◌else◌, length, get_elem?, ◌&&◌,
}
use shero.Common.Bytes.{Bytes}
use shero.Buffer.{
  Buffer, new, initial_size, readable_bytes, read_len, write_len, retrieve_all_as_string,
}
use shero.Buffer.Fixed.{le_bytes, of_le, byteswap}

-- The `enum` of `WSFrameHead`.
abbrev pub continue_frame : ℕ
continue_frame = 1

abbrev pub text_frame : ℕ
text_frame = 2

abbrev pub bin_frame : ℕ
bin_frame = 3

abbrev pub close_frame : ℕ
close_frame = 4

abbrev pub ping : ℕ
ping = 5

abbrev pub pong : ℕ
pong = 6

pub record FrameHead : Type 0 where
  pub fin : Bool
  pub rsv1 : Bool
  pub rsv2 : Bool
  pub rsv3 : Bool
  pub opcode : ℕ  -- 4 bits
  pub mask : Bool
  pub payload : ℕ  -- 7 bits

abbrev pub bit : Bool → ℕ
bit true = 1
bit false = 0

abbrev pub bit_at : ℕ → ℕ → Bool
bit_at k x = x / 2 ^ k % 2 == 1

unfoldable pub head_bytes : FrameHead → Bytes
head_bytes h =
    (bit h.fin + 2 * bit h.rsv1 + 4 * bit h.rsv2 + 8 * bit h.rsv3 + 16 * (h.opcode % 16))
    ∷ (bit h.mask + 2 * (h.payload % 128))
    ∷ []

unfoldable pub head_of : Bytes → FrameHead
head_of [] = record {
  fin = false;
  rsv1 = false;
  rsv2 = false;
  rsv3 = false;
  opcode = 0;
  mask = false;
  payload = 0;
}
head_of (x ∷ []) = record {
  fin = false;
  rsv1 = false;
  rsv2 = false;
  rsv3 = false;
  opcode = 0;
  mask = false;
  payload = 0;
}
head_of (x ∷ y ∷ _) = record {
  fin = bit_at 0 x;
  rsv1 = bit_at 1 x;
  rsv2 = bit_at 2 x;
  rsv3 = bit_at 3 x;
  opcode = x / 16 % 16;
  mask = bit_at 0 y;
  payload = y / 2 % 128;
}

abbrev pub head_size : ℕ
head_size = 2

-- `sizeof(mask)`.
abbrev pub mask_size : ℕ
mask_size = 32

-- `WSFrameMessage`.
pub record Message : Type 0 where
  pub opcode : ℕ
  pub text : Bytes

-- The eight calls of `rand()`, each copied as four bytes; `rand i` is what call `i` gives.
unfoldable pub mask_from : ℕ → ℕ → (ℕ → ℕ) → Bytes
mask_from zero i rand = []
mask_from (suc left) i rand = le_bytes 4 (rand i) ++ mask_from left (i + 1) rand

abbrev pub byte_or : Option ℕ → ℕ
byte_or none = 0
byte_or (some x) = x

-- `msg[i] ^= mask[i % 32]` from position `i` on.
unfoldable pub xor_from : ℕ → Bytes → Bytes → Bytes
xor_from i mask [] = []
xor_from i mask (x ∷ xs) =
    bit_xor x (byte_or (get_elem? mask (i % mask_size))) ∷ xor_from (i + 1) mask xs

-- `head.payload` for a message of `size` bytes.
unfoldable pub payload_of : ℕ → ℕ
payload_of size = if ltb size 126 then size else if ltb size 65536 then 126 else 127

-- The extended length.
unfoldable pub write_length : ℕ → Buffer → Buffer
write_length size b =
    if payload_of size == 126
    then write_len (le_bytes 2 (byteswap 2 (size % 65536))) b
    else if payload_of size == 127
    then write_len (le_bytes 8 (byteswap 8 size)) b
    else b

-- `EncodeWSFrameMessage(data, fin)`: the wire bytes, and the message, whose text it has masked.
unfoldable pub encode_frame : (ℕ → ℕ) → Message → Bool → Bytes × Message
encode_frame rand m fin =
    let size = length m.text in
    let head : FrameHead = record {
      fin = fin;
      rsv1 = false;
      rsv2 = false;
      rsv3 = false;
      opcode = m.opcode;
      mask = true;
      payload = payload_of size;
    } in
    let mask = mask_from 8 0 rand in
    let masked = xor_from 0 mask m.text in
    let b = write_length size (write_len (head_bytes head) (new initial_size)) in
    ((retrieve_all_as_string (write_len masked (write_len mask b))).0, record m { text = masked })

-- `EncodeWSFrameMessage(datas)`: the last message is final. Each message takes eight calls of `rand`.
unfoldable pub encode_frames : (ℕ → ℕ) → List Message → Bytes
encode_frames rand [] = []
encode_frames rand (m ∷ []) = (encode_frame rand m true).0
encode_frames rand (m ∷ n ∷ ms) =
    (encode_frame rand m false).0 ++ encode_frames (λ i. rand (i + 8)) (n ∷ ms)

-- What `DecodeWSFrameMessage` ends with: `nullptr`, a message, the exception of `data.resize`, or
-- (not followed further) a text of 2 GiB or more, where the `int32_t` counters leave their range.
pub data Decoded : Type 0 where
  null : Buffer → Decoded
  message : Message → Buffer → Decoded
  throws : Decoded
  too_long : Decoded

-- The length after the head: 0, 2 or 8 bytes more; `none` where they are missing.
unfoldable pub read_length : ℕ → Buffer → Option ℕ × Buffer
read_length payload b =
    if payload == 126
    then (if ltb (readable_bytes b) 2
        then (none, b)
        else let (bs, b') = read_len 2 b in (some (byteswap 2 (of_le bs)), b'))
    else if payload == 127
    then (if ltb (readable_bytes b) 8
        then (none, b)
        else let (bs, b') = read_len 8 b in (some (byteswap 8 (of_le bs)), b'))
    else (some payload, b)

-- What a data frame does: end the call, or go on with the text read so far.
pub data FrameStep : Type 0 where
  stop : Decoded → FrameStep
  go_on : ℕ → Bytes → Buffer → FrameStep

-- `alloc n`: a string can be resized to `n` bytes.
module _ (alloc : ℕ → Bool) where
  -- From the mask on. `text` holds `cur_len` bytes.
  unfoldable pub read_data : FrameHead → ℕ → Bytes → ℕ → Buffer → FrameStep
  read_data head opcode text size b =
      if ltb (readable_bytes b) mask_size
      then stop (null b)
      else let (mask, b1) = read_len mask_size b in
        if not (alloc ((length text + size) % 2 ^ 64))
        then stop throws
        else if ltb (readable_bytes b1) size
        then stop (null b1)
        else if leb (2 ^ 31) (length text + size)
        then stop too_long
        else let (got, b2) = read_len size b1 in
          let text' = text ++ xor_from 0 mask got in
          let opcode' =
            if opcode == 0 && not (head.opcode == continue_frame) then head.opcode else opcode in
          if head.fin
          then stop (message (record { opcode = opcode'; text = text' }) b2)
          else go_on opcode' text' b2

  unfoldable pub length_step : FrameHead → ℕ → Bytes → Option ℕ × Buffer → FrameStep
  unfolding read_data
  length_step head opcode text (none, b) = stop (null b)
  length_step head opcode text (some size, b) = read_data head opcode text size b

  -- The `switch` on the opcode; `b` is past the head.
  unfoldable pub frame_step : FrameHead → ℕ → Bytes → Buffer → FrameStep
  unfolding length_step
  frame_step head opcode text b =
      if head.opcode == ping || head.opcode == pong
      then go_on opcode text b
      else if head.opcode == continue_frame || head.opcode == text_frame || head.opcode == bin_frame
      then (if not head.mask
          then stop (null b)
          else length_step head opcode text (read_length head.payload b))
      else go_on opcode text b

  -- `do … while(n--)` with `left` rounds to come after this one.
  unfoldable pub decode_loop : ℕ → ℕ → Bytes → Buffer → Decoded
  decode_loop zero opcode text b = null b
  decode_loop (suc rounds) opcode text b =
      if ltb (readable_bytes b) head_size
      then null b
      else let (hb, b1) = read_len head_size b in
        elim (frame_step (head_of hb) opcode text b1) [
          | stop d ↦ d
          | go_on opcode' text' b2 ↦ decode_loop rounds opcode' text' b2
        ]

  -- `int n = 2; do … while(n--)` makes three rounds.
  unfoldable pub decode : Buffer → Decoded
  decode b = decode_loop 3 0 [] b
