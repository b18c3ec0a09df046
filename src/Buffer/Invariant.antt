-- ===== src/Buffer/Invariant.antt =====
-- The representation invariant of `Buffer`: 8 ≤ m_readIndex ≤ m_writeIndex ≤ m_buffer.size().
use shero.Common.{
  ℕ, zero, ◌+◌, ◌-◌, ◌≤◌, ◌≡◌, arith, length, take, drop, replicate, ◌++◌, length-append,
  length-take, length-drop, length-replicate,
}
use shero.Common.Bytes.{Bytes}
use shero.Buffer.{
  Buffer, free_prepend, new, readable_bytes, writeable_bytes, resize, overwrite, to_string,
  retrieve, ensure_writeable_bytes, put, write_len,
}

pub record IsValid (b : Buffer) : Type 0 where
  pub prepend : free_prepend ≤ b.read_index
  pub ordered : b.read_index ≤ b.write_index
  pub within : b.write_index ≤ length b.bytes

pub length-resize : (xs : Bytes) (n : ℕ) → length (resize xs n) ≡ n
length-resize xs n = omega (
  arith,
  length-append (take n xs) (replicate (n - length xs) 0),
  length-take n xs,
  length-replicate (n - length xs) zero,
)

pub length-overwrite :
    (xs : Bytes) (i : ℕ) (ys : Bytes)
    → i + length ys ≤ length xs
    → length (overwrite xs i ys) ≡ length xs
length-overwrite xs i ys h = omega (
  arith,
  length-append (take i xs) (ys ++ drop (i + length ys) xs),
  length-append ys (drop (i + length ys) xs),
  length-take i xs,
  length-drop (i + length ys) xs,
)

pub length-to_string : {b : Buffer} → IsValid b → length (to_string b) ≡ readable_bytes b
unfolding to_string readable_bytes
length-to_string {b} v = omega (
  arith,
  length-take (b.write_index - b.read_index) (drop b.read_index b.bytes),
  length-drop b.read_index b.bytes,
)

pub new-IsValid : (size : ℕ) → IsValid (new size)
unfolding new
new-IsValid size = omega (arith, length-replicate (free_prepend + size) zero)

pub retrieve-IsValid : {b : Buffer} (len : ℕ) → IsValid b → IsValid (retrieve len b)
unfolding retrieve
retrieve-IsValid len v = ground arith

-- After `ensureWriteableBytes` there is room, and the invariant holds.
pub ensure_writeable_bytes-IsValid :
    {b : Buffer} (len : ℕ)
    → IsValid b
    → IsValid (ensure_writeable_bytes len b)
      × (len ≤ writeable_bytes (ensure_writeable_bytes len b))
unfolding ensure_writeable_bytes
ensure_writeable_bytes-IsValid {b} len v = ground (
  arith,
  length-resize b.bytes (b.write_index + len),
  length-to_string v,
  length-overwrite b.bytes free_prepend (to_string b),
)

pub put-IsValid :
    {b : Buffer} (xs : Bytes) → length xs ≤ writeable_bytes b → IsValid b → IsValid (put xs b)
unfolding put writeable_bytes
put-IsValid {b} xs room v = ground (arith, length-overwrite b.bytes b.write_index xs)

-- A write of any length keeps the invariant.
pub write_len-IsValid : {b : Buffer} (xs : Bytes) → IsValid b → IsValid (write_len xs b)
write_len-IsValid {b} xs v =
    let (w, room) = ensure_writeable_bytes-IsValid (length xs) v in
    unfold write_len in put-IsValid xs room w
