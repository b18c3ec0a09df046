-- ===== src/Buffer/Content.antt =====
-- A valid `Buffer` behaves as the queue of its readable bytes.
use shero.Common.{
  ℕ, ◌+◌, ◌-◌, ◌≤◌, ◌≡◌, refl, sym, ap, ◌∙◌, [], ◌++◌, arith, length, take, drop, length-take,
  take-append_le, take-append_ge, drop-append_le, drop-drop, take-take, drop-take, take_all,
  drop_all, take-append_self, ltb, Bool-cases, inl, inr,
}
use shero.Common.Bytes.{Bytes}
use shero.Buffer.{
  Buffer, free_prepend, new, readable_bytes, writeable_bytes, prependable_bytes, overwrite, peek,
  to_string, retrieve, read_len, retrieve_all_as_string, resize_buffer, ensure_writeable_bytes, put,
  write_len,
}
use shero.Buffer.Invariant.{
  IsValid, length-to_string, ensure_writeable_bytes-IsValid, retrieve-IsValid,
}

-- The bytes of `xs` from `r` up to `w`.
abbrev pub window : ℕ → ℕ → Bytes → Bytes
window r w xs = take (w - r) (drop r xs)

window-eq-drop : (r w : ℕ) (xs : Bytes) → window r w xs ≡ drop r (take w xs)
window-eq-drop r w xs = sym (drop-take r w xs)

-- A window inside a kept prefix is not touched by what comes after.
window-take :
    (r w n : ℕ) (xs ys : Bytes)
    → w ≤ n
    → w ≤ length xs
    → window r w (take n xs ++ ys) ≡ window r w xs
window-take r w n xs ys hn hx =
    window-eq-drop r w (take n xs ++ ys)
    ∙ ap (drop r)
        (take-append_le w (take n xs) ys (omega (arith, length-take n xs)) ∙ take-take w n xs hn)
    ∙ sym (window-eq-drop r w xs)

-- A copy to the end of a window extends it.
window-overwrite :
    (r w : ℕ) (xs ys : Bytes)
    → r ≤ w
    → w ≤ length xs
    → window r (w + length ys) (overwrite xs w ys) ≡ window r w xs ++ ys
window-overwrite r w xs ys hr hw =
    window-eq-drop r (w + length ys) (overwrite xs w ys)
    ∙ ap (drop r) (
        take-append_ge (w + length ys) (take w xs) (ys ++ drop (w + length ys) xs)
          (omega (arith, length-take w xs))
        ∙ ap (λ k. take w xs ++ take k (ys ++ drop (w + length ys) xs))
            (let e : w + length ys - length (take w xs) ≡ length ys =
                omega (arith, length-take w xs) in
              e)
        ∙ ap (λ t. take w xs ++ t) (take-append_self ys (drop (w + length ys) xs)))
    ∙ drop-append_le r (take w xs) ys (omega (arith, length-take w xs))
    ∙ ap (λ t. t ++ ys) (sym (window-eq-drop r w xs))

pub put-to_string : {b : Buffer} (xs : Bytes) → IsValid b → to_string (put xs b) ≡ to_string b ++ xs
unfolding to_string put
put-to_string {b} xs v = window-overwrite b.read_index b.write_index b.bytes xs v.ordered v.within

-- Bytes copied to the front are the window there.
window-front :
    (xs ys : Bytes) (n : ℕ)
    → free_prepend ≤ length xs
    → n ≡ length ys
    → window free_prepend (free_prepend + n) (overwrite xs free_prepend ys) ≡ ys
window-front xs ys n h e =
    ap (λ k. window free_prepend (free_prepend + k) (overwrite xs free_prepend ys)) e
    ∙ window-overwrite free_prepend free_prepend xs ys (omega arith) h

-- Making room, by growing or by moving the bytes, keeps the readable bytes.
resize_buffer-to_string :
    {b : Buffer} (len : ℕ) → IsValid b → to_string (resize_buffer len b) ≡ to_string b
unfolding to_string resize_buffer
resize_buffer-to_string {b} len v =
    elim (Bool-cases (ltb (writeable_bytes b + prependable_bytes b) (len + free_prepend))) [
      | inl e ↦ rw e (
          window-take b.read_index b.write_index (b.write_index + len) b.bytes _ (omega arith)
            v.within)
      | inr e ↦ rw e (
          window-front b.bytes (to_string b) (readable_bytes b) (omega arith)
            (sym (length-to_string v)))
    ]

pub ensure_writeable_bytes-to_string :
    {b : Buffer} (len : ℕ) → IsValid b → to_string (ensure_writeable_bytes len b) ≡ to_string b
unfolding ensure_writeable_bytes
ensure_writeable_bytes-to_string {b} len v = ground (arith, resize_buffer-to_string len v)

-- A write of any length appends exactly its bytes, whether it grows, moves or fits.
pub write_len-to_string :
    {b : Buffer} (xs : Bytes) → IsValid b → to_string (write_len xs b) ≡ to_string b ++ xs
unfolding write_len
write_len-to_string {b} xs v =
    put-to_string xs (ensure_writeable_bytes-IsValid (length xs) v).0
    ∙ ap (λ t. t ++ xs) (ensure_writeable_bytes-to_string (length xs) v)

-- `retrieve` drops from the front; asking for too much drops all.
pub retrieve-to_string :
    {b : Buffer} (len : ℕ) → IsValid b → to_string (retrieve len b) ≡ drop len (to_string b)
unfolding retrieve to_string
retrieve-to_string {b} len v = elim (Bool-cases (ltb (readable_bytes b) len)) [
  | inl e ↦ rw e (sym (drop_all len (to_string b) (ground (arith, length-to_string v))))
  | inr e ↦ rw e (
      ap (λ k. take k (drop (b.read_index + len) b.bytes))
        (let k : b.write_index - (b.read_index + len) ≡ b.write_index - b.read_index - len =
            omega arith in
          k)
      ∙ ap (take (b.write_index - b.read_index - len)) (sym (drop-drop len b.read_index b.bytes))
      ∙ sym (drop-take len (b.write_index - b.read_index) (drop b.read_index b.bytes)))
]

-- What `memcpy` reads lies within the readable bytes.
pub peek-to_string :
    {b : Buffer} (len : ℕ)
    → IsValid b
    → len ≤ readable_bytes b
    → peek len b ≡ take len (to_string b)
unfolding to_string readable_bytes
peek-to_string {b} len v h =
    sym (take-take len (b.write_index - b.read_index) (drop b.read_index b.bytes) h)

pub read_len_lem :
    {b : Buffer} (len : ℕ)
    → IsValid b
    → len ≤ readable_bytes b
    → (read_len len b).0 ≡ take len (to_string b)
unfolding read_len
read_len_lem len v h = peek-to_string len v h

pub read_len-to_string :
    {b : Buffer} (len : ℕ) → IsValid b → to_string (read_len len b).1 ≡ drop len (to_string b)
unfolding read_len
read_len-to_string len v = retrieve-to_string len v

pub read_len-IsValid : {b : Buffer} (len : ℕ) → IsValid b → IsValid (read_len len b).1
unfolding read_len
read_len-IsValid len v = retrieve-IsValid len v

-- `retrieveAllAsString` returns the whole queue and leaves a valid empty buffer.
pub retrieve_all_as_string_lem :
    {b : Buffer}
    → IsValid b
    → let (s, b') = retrieve_all_as_string b in (s ≡ to_string b) × (to_string b' ≡ []) × IsValid b'
unfolding retrieve_all_as_string
retrieve_all_as_string_lem {b} v = (
  peek-to_string (readable_bytes b) v (omega arith)
      ∙ take_all (readable_bytes b) (to_string b) (omega (arith, length-to_string v)),
  retrieve-to_string (readable_bytes b) v
      ∙ drop_all (readable_bytes b) (to_string b) (omega (arith, length-to_string v)),
  retrieve-IsValid (readable_bytes b) v,
)

pub empty_new : (size : ℕ) → to_string (new size) ≡ []
unfolding to_string new
empty_new size = refl
