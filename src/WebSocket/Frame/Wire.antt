-- ===== src/WebSocket/Frame/Wire.antt =====
-- What `EncodeWSFrameMessage` puts on the wire, in plain terms.
use shero.Common.{
  ℕ, zero, suc, ◌+◌, ◌*◌, ◌%◌, ◌<◌, ◌≡◌, refl, ap, ◌∙◌, Bool, true, false, [], ◌∷◌, ◌++◌, arith,
  ltb, ◌==◌, if◌then◌else◌, length, get_elem?, All, All-append, length-append, append_assoc,
  append-nil, Bool-cases, inl, inr,
}
use shero.Common.Bytes.{Bytes, IsByte}
use shero.Common.Bits.{xor_twice}
use shero.Buffer.{Buffer, new, initial_size, retrieve_all_as_string, write_len}
use shero.Buffer.Invariant.{new-IsValid}
use shero.Buffer.Content.{retrieve_all_as_string_lem, empty_new}
use shero.Buffer.Fixed.{
  le_bytes, be_bytes, byteswap, le_bytes-byteswap, le_bytes-IsByte, length-le_bytes,
}
use shero.Buffer.Network.{Holds, Holds-write_len}
use shero.WebSocket.Frame.{
  FrameHead, head_bytes, head_of, Message, mask_from, mask_size, byte_or, xor_from, payload_of,
  write_length, encode_frame,
}

-- The head of an encoded message.
abbrev pub head_for : Message → Bool → FrameHead
head_for m fin = record {
  fin = fin;
  rsv1 = false;
  rsv2 = false;
  rsv3 = false;
  opcode = m.opcode;
  mask = true;
  payload = payload_of (length m.text);
}

-- The extended length, in network order.
unfoldable pub length_bytes : ℕ → Bytes
length_bytes size =
    if ltb size 126 then [] else if ltb size 65536 then be_bytes 2 size else be_bytes 8 size

-- Head, extended length, mask, masked text.
abbrev pub wire : (ℕ → ℕ) → Message → Bool → Bytes
wire rand m fin =
    head_bytes (head_for m fin)
    ++ (length_bytes (length m.text)
        ++ (mask_from 8 0 rand ++ xor_from 0 (mask_from 8 0 rand) m.text))

pub not_eq : (n m : ℕ) → n < m → (n == m) ≡ false
not_eq n m h = ground arith

pub not_eq_next : (n : ℕ) → n < 126 → (n == 127) ≡ false
not_eq_next n h = ground arith

-- The three forms of a length.
pub data LengthForm (size : ℕ) : Type 0 where
  short : size < 126 → payload_of size ≡ size → length_bytes size ≡ [] → LengthForm size
  medium :
      size < 65536 → payload_of size ≡ 126 → length_bytes size ≡ be_bytes 2 size → LengthForm size
  long : payload_of size ≡ 127 → length_bytes size ≡ be_bytes 8 size → LengthForm size

pub length_form : (size : ℕ) → LengthForm size
unfolding payload_of length_bytes
length_form size = elim (Bool-cases (ltb size 126)) [
  | inl small ↦ short (ground arith) (rw small) (rw small)
  | inr large ↦ elim (Bool-cases (ltb size 65536)) [
    | inl fits ↦ medium (ground arith) (rw (large, fits)) (rw (large, fits))
    | inr more ↦ long (rw (large, more)) (rw (large, more))
  ]
]

Holds-swapped :
    (k size : ℕ) {n : ℕ} {b : Buffer} {s : Bytes}
    → n ≡ size
    → Holds b s
    → Holds (write_len (le_bytes k (byteswap k n)) b) (s ++ be_bytes k size)
Holds-swapped k size {n} {b} {s} e h =
    rw (e, le_bytes-byteswap) (Holds-write_len (be_bytes k size) h)

Holds-write_length :
    (size : ℕ) {b : Buffer} {s : Bytes}
    → Holds b s
    → Holds (write_length size b) (s ++ length_bytes size)
unfolding write_length
Holds-write_length size {b} {s} h = go (length_form size)
  where
    go : LengthForm size → Holds (write_length size b) (s ++ length_bytes size)
    go (short lt p l) = rw (p, l, not_eq size 126 lt, not_eq_next size lt, append-nil) h
    go (medium lt p l) = rw (p, l) (Holds-swapped 2 size (omega arith) h)
    go (long p l) = rw (p, l) (Holds-swapped 8 size refl h)

Holds-new : (size : ℕ) → Holds (new size) []
Holds-new size = record { valid = new-IsValid size; text = empty_new size }

Holds-all : {b : Buffer} {s : Bytes} → Holds b s → (retrieve_all_as_string b).0 ≡ s
Holds-all h = (retrieve_all_as_string_lem h.valid).0 ∙ h.text

-- The wire format of an encoded message.
pub encode_frame-wire :
    (rand : ℕ → ℕ) (m : Message) (fin : Bool) → (encode_frame rand m fin).0 ≡ wire rand m fin
unfolding encode_frame
encode_frame-wire rand m fin =
    Holds-all (
      Holds-write_len (xor_from 0 (mask_from 8 0 rand) m.text) (
        Holds-write_len (mask_from 8 0 rand) (
          Holds-write_length (length m.text)
            (Holds-write_len (head_bytes (head_for m fin)) (Holds-new initial_size)))))
    ∙ simp append_assoc

pub length-mask_from : (k i : ℕ) (rand : ℕ → ℕ) → length (mask_from k i rand) ≡ 4 * k
unfolding mask_from
length-mask_from zero i rand = omega arith
length-mask_from (suc k) i rand = omega (
  arith,
  length-append (le_bytes 4 (rand i)) (mask_from k (i + 1) rand),
  length-le_bytes 4 (rand i),
  length-mask_from k (i + 1) rand,
)

pub mask_from-IsByte : (k i : ℕ) (rand : ℕ → ℕ) → All IsByte (mask_from k i rand)
unfolding mask_from
mask_from-IsByte zero i rand = tt
mask_from-IsByte (suc k) i rand =
    All-append IsByte (le_bytes 4 (rand i)) (mask_from k (i + 1) rand) (le_bytes-IsByte 4 (rand i))
      (mask_from-IsByte k (i + 1) rand)

byte_or-IsByte : (mask : Bytes) (i : ℕ) → All IsByte mask → IsByte (byte_or (get_elem? mask i))
byte_or-IsByte [] i h = omega arith
byte_or-IsByte (x ∷ xs) zero h = h.0
byte_or-IsByte (x ∷ xs) (suc i) h = byte_or-IsByte xs i h.1

-- Unmasking undoes masking.
pub xor_from-xor_from :
    (i : ℕ) (mask xs : Bytes)
    → All IsByte mask
    → All IsByte xs
    → xor_from i mask (xor_from i mask xs) ≡ xs
unfolding xor_from
xor_from-xor_from i mask [] hm h = refl
xor_from-xor_from i mask (x ∷ xs) hm h = cc (
  xor_twice x (byte_or (get_elem? mask (i % mask_size))) h.0
      (byte_or-IsByte mask (i % mask_size) hm),
  xor_from-xor_from (i + 1) mask xs hm h.1,
)

pub length-xor_from : (i : ℕ) (mask xs : Bytes) → length (xor_from i mask xs) ≡ length xs
unfolding xor_from
length-xor_from i mask [] = refl
length-xor_from i mask (x ∷ xs) = ap suc (length-xor_from (i + 1) mask xs)

-- The head survives its two bytes.
pub head_of-head_bytes :
    (m : Message) (fin : Bool)
    → m.opcode < 16
    → head_of (head_bytes (head_for m fin)) ≡ head_for m fin
unfolding head_of head_bytes payload_of
head_of-head_bytes m true h = ground arith
head_of-head_bytes m false h = ground arith

pub length-head_bytes : (h : FrameHead) → length (head_bytes h) ≡ 2
unfolding head_bytes
length-head_bytes h = refl
