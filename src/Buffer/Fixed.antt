-- ===== src/Buffer/Fixed.antt =====
-- shero/base/Endian.h and the fixed-width reads and writes of shero/net/Buffer.cc, on a
-- little-endian host. An integer is its bit pattern, so the signed and the unsigned variant of a
-- width are one function; `size` is `sizeof(type)`.
use mathlib.Core.List.{reverse, reverse-cons, reverse-reverse}
use native.Mathlib.Nat.{pow-suc}
use shero.Common.{
  ℕ, zero, suc, ◌+◌, ◌*◌, ◌/◌, ◌%◌, ◌^◌, ◌<◌, ◌≡◌, refl, sym, ap, ◌∙◌, [], ◌∷◌, arith, length, All,
  All-append, length-append, ltb, if◌then◌else◌,
}
use shero.Common.Bytes.{Bytes, IsByte}
use shero.Buffer.{Buffer, readable_bytes, read_len, write_len}

-- The object representation on a little-endian host, low byte first, and its reading.
unfoldable pub le_bytes : ℕ → ℕ → Bytes
le_bytes zero v = []
le_bytes (suc k) v = v % 256 ∷ le_bytes k (v / 256)

unfoldable pub of_le : Bytes → ℕ
of_le [] = 0
of_le (x ∷ xs) = x + 256 * of_le xs

-- `byteswap`, which is `byteswapOnLittleEndian` here: the bytes in the other order.
unfoldable pub byteswap : ℕ → ℕ → ℕ
unfolding le_bytes of_le
byteswap size v = of_le (reverse (le_bytes size v))

-- `type nw = byteswapOnLittleEndian(host); writeLen(&nw, sizeof(type));`
unfoldable pub write_fixed : ℕ → ℕ → Buffer → Buffer
write_fixed size host b = write_len (le_bytes size (byteswap size host)) b

-- The read of the macro `XX`: 0 where too few bytes are readable.
unfoldable pub read_fixed : ℕ → Buffer → ℕ × Buffer
read_fixed size b =
    if ltb (readable_bytes b) size
    then (0, b)
    else let (nw, b') = read_len size b in (byteswap size (of_le nw), b')

unfoldable pub write_uint8 : ℕ → Buffer → Buffer
unfolding write_fixed
write_uint8 = write_fixed 1

unfoldable pub write_uint16 : ℕ → Buffer → Buffer
unfolding write_fixed
write_uint16 = write_fixed 2

unfoldable pub write_uint32 : ℕ → Buffer → Buffer
unfolding write_fixed
write_uint32 = write_fixed 4

unfoldable pub write_uint64 : ℕ → Buffer → Buffer
unfolding write_fixed
write_uint64 = write_fixed 8

unfoldable pub read_uint8 : Buffer → ℕ × Buffer
unfolding read_fixed
read_uint8 = read_fixed 1

unfoldable pub read_uint16 : Buffer → ℕ × Buffer
unfolding read_fixed
read_uint16 = read_fixed 2

unfoldable pub read_uint32 : Buffer → ℕ × Buffer
unfolding read_fixed
read_uint32 = read_fixed 4

unfoldable pub read_uint64 : Buffer → ℕ × Buffer
unfolding read_fixed
read_uint64 = read_fixed 8

pub length-le_bytes : (k v : ℕ) → length (le_bytes k v) ≡ k
unfolding le_bytes
length-le_bytes zero v = refl
length-le_bytes (suc k) v = ap suc (length-le_bytes k (v / 256))

pub le_bytes-IsByte : (k v : ℕ) → All IsByte (le_bytes k v)
unfolding le_bytes
le_bytes-IsByte zero v = tt
le_bytes-IsByte (suc k) v = (omega arith, le_bytes-IsByte k (v / 256))

pub of_le-le_bytes : (k v : ℕ) → v < 256 ^ k → of_le (le_bytes k v) ≡ v
unfolding le_bytes of_le
of_le-le_bytes zero v h = omega arith
of_le-le_bytes (suc k) v h =
    omega (arith, of_le-le_bytes k (v / 256) (omega (arith, pow-suc 256 k)))

pub le_bytes-of_le : (xs : Bytes) → All IsByte xs → le_bytes (length xs) (of_le xs) ≡ xs
unfolding le_bytes of_le
le_bytes-of_le [] h = refl
le_bytes-of_le (x ∷ xs) (hx, hxs) = ground (arith, le_bytes-of_le xs hxs, split x (of_le xs) hx)
  where
    split : (a r : ℕ) → a < 256 → ((a + 256 * r) % 256 ≡ a) × ((a + 256 * r) / 256 ≡ r)
    split a r h = (omega arith, omega arith)

length-reverse : (xs : Bytes) → length (reverse xs) ≡ length xs
length-reverse [] = refl
length-reverse (x ∷ xs) =
    ap length (reverse-cons x xs)
    ∙ omega (arith, length-append (reverse xs) (x ∷ []), length-reverse xs)

reverse-IsByte : (xs : Bytes) → All IsByte xs → All IsByte (reverse xs)
reverse-IsByte [] h = tt
reverse-IsByte (x ∷ xs) (hx, hxs) =
    rw reverse-cons (All-append IsByte (reverse xs) (x ∷ []) (reverse-IsByte xs hxs) (hx, tt))

-- The bytes of `v` in network order, high byte first.
abbrev pub be_bytes : ℕ → ℕ → Bytes
be_bytes k v = reverse (le_bytes k v)

pub length-be_bytes : (k v : ℕ) → length (be_bytes k v) ≡ k
length-be_bytes k v = length-reverse (le_bytes k v) ∙ length-le_bytes k v

-- Swapping, then storing little-endian, stores in network order.
pub le_bytes-byteswap : (k v : ℕ) → le_bytes k (byteswap k v) ≡ be_bytes k v
unfolding byteswap
le_bytes-byteswap k v =
    ap (λ n. le_bytes n (of_le (be_bytes k v))) (sym (length-be_bytes k v))
    ∙ le_bytes-of_le (be_bytes k v) (reverse-IsByte (le_bytes k v) (le_bytes-IsByte k v))

-- Reading the bytes of `be_bytes` back.
pub byteswap-of_le-be_bytes : (k v : ℕ) → v < 256 ^ k → byteswap k (of_le (be_bytes k v)) ≡ v
unfolding byteswap
byteswap-of_le-be_bytes k v h =
    ap (λ n. of_le (reverse (le_bytes n (of_le (be_bytes k v))))) (sym (length-be_bytes k v))
    ∙ ap (λ t. of_le (reverse t))
        (le_bytes-of_le (be_bytes k v) (reverse-IsByte (le_bytes k v) (le_bytes-IsByte k v)))
    ∙ ap of_le (reverse-reverse (le_bytes k v))
    ∙ of_le-le_bytes k v h
