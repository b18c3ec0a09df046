-- ===== src/Buffer/VarInt/RoundTrip.antt =====
-- What a variable-length or zigzag write stores, the matching read gives back.
use Prim.Native.Nat.{bit_and, bit_or}
use mathlib.Core.Option
use native.Mathlib.Nat.{pow-suc, div-add-mod, mod-eq_of_lt}
use native.Mathlib.Numerals.{towards_suc}
use shero.Common.{
  ℕ, zero, suc, ◌+◌, ◌*◌, ◌/◌, ◌%◌, ◌^◌, ◌≤◌, ◌<◌, ◌≡◌, refl, ap, ◌∙◌, some, [], ◌∷◌, ◌++◌, arith,
  ltb, Bool-cases, Option-cases, inl, inr, ◌⊎◌, true, false,
}
use shero.Common.Bytes.{Bytes, IsByte}
use shero.Common.Bits.{low_seven, set_top, bit_or_disjoint}
use shero.Buffer.{Buffer, to_string, write_len}
use shero.Buffer.Invariant.{IsValid, write_len-IsValid}
use shero.Buffer.Content.{write_len-to_string}
use shero.Buffer.Fixed.{le_bytes, be_bytes, read_fixed}
use shero.Buffer.Network.{read_fixed_front}
use shero.Buffer.VarInt.{
  groups, write_var_uint32, write_var_uint64, read_var_loop, read_var_uint32, read_var_uint64,
}

-- A value below `128 ^ slots` fits an array of `slots` bytes.
groups_total :
    (slots v : ℕ) → v < 128 ^ suc slots → (tmp : Bytes) × (groups (suc slots) v ≡ some tmp)
unfolding groups
groups_total zero v h = (v ∷ [], ground arith)
groups_total (suc slots) v h = elim (Bool-cases (ltb v 0x80)) [
  | inl small ↦ (v ∷ [], rw small)
  | inr large ↦
      let (tmp, e) = groups_total slots (v / 128) (omega (arith, pow-suc 128 (suc slots))) in
      (
        bit_or (bit_and v 0x7F) 0x80 ∷ tmp,
        rw large (ap (Option.map (λ t. bit_or (bit_and v 0x7F) 0x80 ∷ t)) e),
      )
]

-- The next byte of a buffer that starts with `x`.
next_byte :
    (x : ℕ) {b : Buffer} (rest : Bytes)
    → IsByte x
    → IsValid b
    → to_string b ≡ x ∷ rest
    → let (n, b') = read_fixed 1 b in (n ≡ x) × (to_string b' ≡ rest) × IsValid b'
next_byte x {b} rest hx h e = read_fixed_front 1 x rest (omega arith) h (e ∙ one_byte)
  where
    one_byte : x ∷ rest ≡ be_bytes 1 x ++ rest
    one_byte = unfold le_bytes in ap (λ y. y ∷ rest) (omega arith)

shift_seven : (i : ℕ) → 2 ^ (i + 7) ≡ 128 * 2 ^ i
shift_seven i = simp towards_suc (omega arith)

-- One more group: what is read so far, the low group shifted, and what is left.
split_group : (v i : ℕ) → v * 2 ^ i ≡ v % 128 * 2 ^ i + v / 128 * 2 ^ (i + 7)
split_group v i = omega (
  arith,
  ap (λ (t : ℕ). t * 2 ^ i) (div-add-mod v 128),
  ap (λ (t : ℕ). v / 128 * t) (shift_seven i),
)

-- What `groups` gives: one byte, or a byte with the top bit over the low group, and the rest.
groups-cases :
    (slots v : ℕ) (tmp : Bytes)
    → groups (suc slots) v ≡ some tmp
    → ((v < 128) × (tmp ≡ v ∷ []))
      ⊎ ((t : Bytes) × (tmp ≡ (v % 128 + 128) ∷ t) × (groups slots (v / 128) ≡ some t))
unfolding groups
groups-cases slots v tmp g = elim (Bool-cases (ltb v 0x80)) [
  | inl small ↦ inl (ground arith, ground arith)
  | inr large ↦ elim (Option-cases (groups slots (v / 128))) [
    | inl fail ↦ ground arith
    | inr (t, more) ↦ inr (t, ground (arith, low_seven v, set_top (v % 128) (omega arith)), more)
  ]
]

lt→ltb : (a b : ℕ) → a < b → ltb a b ≡ true
lt→ltb a b h = ground arith

not_small : (g : ℕ) → ltb (g + 128) 128 ≡ false
not_small g = ground arith

low_of_top : (g : ℕ) → g < 128 → (g + 128) % 128 ≡ g
low_of_top g h = omega arith

next_bound :
    (i result g : ℕ) {n : ℕ} → result < 2 ^ i → g < 128 → n ≡ result + g * 2 ^ i → n < 2 ^ (i + 7)
next_bound i result g hr hg e = grind (arith, shift_seven i)

module _ (width : ℕ) where
  add_group :
      (i result g : ℕ)
      → result < 2 ^ i
      → g * 2 ^ i < 2 ^ width
      → bit_or result (g * 2 ^ i % 2 ^ width) ≡ result + g * 2 ^ i
  add_group i result g h fits =
      ap (bit_or result) (mod-eq_of_lt fits) ∙ bit_or_disjoint i result g h

  last_step :
      (slots i result x : ℕ) {b : Buffer} (rest : Bytes)
      → x < 128
      → IsValid b
      → to_string b ≡ x ∷ rest
      → let (n, b') = read_var_loop width (suc slots) i result b in
        (n ≡ bit_or result (x * 2 ^ i % 2 ^ width)) × (to_string b' ≡ rest) × IsValid b'
  unfolding read_var_loop
  last_step slots i result x {b} rest hx h e =
      let (n, left, valid) = next_byte x rest (omega arith) h e in
      rw (n, lt→ltb x 128 hx) (refl, left, valid)

  inner_step :
      (slots i result g : ℕ) {b : Buffer} (rest : Bytes)
      → g < 128
      → IsValid b
      → to_string b ≡ (g + 128) ∷ rest
      → (b' : Buffer) × (read_var_loop width (suc slots) i result b
          ≡ read_var_loop width slots (i + 7) (bit_or result (g * 2 ^ i % 2 ^ width)) b')
        × (to_string b' ≡ rest)
        × IsValid b'
  unfolding read_var_loop
  inner_step slots i result g {b} rest hg h e =
      let (n, left, valid) = next_byte (g + 128) rest (omega arith) h e in
      (
        (read_fixed 1 b).1,
        rw (n, not_small g, low_seven (g + 128), low_of_top g hg) refl,
        left,
        valid,
      )

  -- Reading the groups of `v` at bit `i` adds `v` shifted to there.
  read_var_loop-groups :
      (slots i result v : ℕ) (tmp : Bytes) {b : Buffer} (rest : Bytes)
      → groups slots v ≡ some tmp
      → result < 2 ^ i
      → v * 2 ^ i < 2 ^ width
      → IsValid b
      → to_string b ≡ tmp ++ rest
      → let (n, b') = read_var_loop width slots i result b in
        (n ≡ result + v * 2 ^ i) × (to_string b' ≡ rest) × IsValid b'
  read_var_loop-groups zero i result v tmp rest g hr hv h e = unfold groups in cc
  read_var_loop-groups (suc slots) i result v tmp {b} rest g hr hv h e =
      elim (groups-cases slots v tmp g) [
        | inl (small, last) ↦
            let (n, left, valid) =
              last_step slots i result v rest small h (e ∙ ap (λ t. t ++ rest) last) in
            (n ∙ add_group i result v hr hv, left, valid)
        | inr (t, inner, more) ↦
            let (b', step, left, valid) =
              inner_step slots i result (v % 128) (t ++ rest) (omega arith) h
                (e ∙ ap (λ t. t ++ rest) inner) in
            let low : v % 128 * 2 ^ i ≤ v * 2 ^ i = omega (arith, split_group v i) in
            let high : v / 128 * 2 ^ (i + 7) ≤ v * 2 ^ i = omega (arith, split_group v i) in
            let sum : bit_or result (v % 128 * 2 ^ i % 2 ^ width) ≡ result + v % 128 * 2 ^ i =
              add_group i result (v % 128) hr (omega arith) in
            let (n, done, valid') =
              read_var_loop-groups slots (i + 7) (bit_or result (v % 128 * 2 ^ i % 2 ^ width))
                (v / 128) t rest more (next_bound i result (v % 128) hr (omega arith) sum)
                (omega arith) valid left in
            rw step (n ∙ omega (arith, sum, split_group v i), done, valid')
      ]

-- The write succeeds with the groups appended, for either array size.
written :
    (slots v : ℕ) {b : Buffer} (more : Bytes)
    → v < 128 ^ suc slots
    → IsValid b
    → to_string b ≡ []
    → (b' : Buffer) × (tmp : Bytes) × (Option.map (λ t. write_len t b) (groups (suc slots) v)
        ≡ some b')
      × (groups (suc slots) v ≡ some tmp)
      × (to_string (write_len more b') ≡ tmp ++ more)
      × IsValid (write_len more b')
written slots v {b} more hv h e =
    let (tmp, g) = groups_total slots v hv in
    let valid = write_len-IsValid tmp h in
    (
      write_len tmp b,
      tmp,
      ap (Option.map (λ t. write_len t b)) g,
      g,
      write_len-to_string more valid
          ∙ ap (λ t. t ++ more) (write_len-to_string tmp h ∙ ap (λ t. t ++ tmp) e),
      write_len-IsValid more valid,
    )

-- Every `uint32_t` written by `writeVarUint32` to an empty valid buffer fits the array of 5 bytes,
-- and `readVarUint32` reads it back and leaves exactly the bytes written after it.
pub read_var_uint32-write_var_uint32 :
    (v : ℕ) {b : Buffer} (more : Bytes)
    → v < 2 ^ 32
    → IsValid b
    → to_string b ≡ []
    → (b' : Buffer) × (write_var_uint32 v b ≡ some b')
      × let (n, rest) = read_var_uint32 (write_len more b') in
        (n ≡ v) × (to_string rest ≡ more) × IsValid rest
unfolding write_var_uint32 read_var_uint32
read_var_uint32-write_var_uint32 v more hv h e =
    let (b', tmp, wrote, g, text, valid) = written 4 v more (omega arith) h e in
    let (n, left, valid') =
      read_var_loop-groups 32 5 0 0 v tmp more g (omega arith) (omega arith) valid text in
    (b', wrote, (n ∙ omega arith, left, valid'))

-- Every `uint64_t` written by `writeVarUint64` to an empty valid buffer fits the array of 10
-- bytes, and `readVarUint64` reads it back and leaves exactly the bytes written after it.
pub read_var_uint64-write_var_uint64 :
    (v : ℕ) {b : Buffer} (more : Bytes)
    → v < 2 ^ 64
    → IsValid b
    → to_string b ≡ []
    → (b' : Buffer) × (write_var_uint64 v b ≡ some b')
      × let (n, rest) = read_var_uint64 (write_len more b') in
        (n ≡ v) × (to_string rest ≡ more) × IsValid rest
unfolding write_var_uint64 read_var_uint64
read_var_uint64-write_var_uint64 v more hv h e =
    let (b', tmp, wrote, g, text, valid) = written 9 v more (omega arith) h e in
    let (n, left, valid') =
      read_var_loop-groups 64 10 0 0 v tmp more g (omega arith) (omega arith) valid text in
    (b', wrote, (n ∙ omega arith, left, valid'))
