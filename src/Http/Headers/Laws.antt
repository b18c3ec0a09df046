-- ===== src/Http/Headers/Laws.antt =====
-- The laws of the header map: reads after writes and deletions, and its order.
use shero.Common.{
  ◌≡◌, refl, ap, true, false, none, some, [], ◌∷◌, arith, if◌then◌else◌, All, Bool-cases, inl, inr,
}
use shero.Common.Bytes.{Bytes, bytes_eq, bytes_eq_refl, bytes_eq→eq}
use shero.Http.Headers.{Headers, fold_key, lex_lt, less, same_key, find, insert, erase}

lex_lt_irrefl : (xs : Bytes) → lex_lt xs xs ≡ false
unfolding lex_lt
lex_lt_irrefl [] = refl
lex_lt_irrefl (x ∷ xs) = ground (arith, lex_lt_irrefl xs)

lex_lt_trichotomy : (xs ys : Bytes) → lex_lt xs ys ≡ false → lex_lt ys xs ≡ false → xs ≡ ys
unfolding lex_lt
lex_lt_trichotomy [] [] h k = refl
lex_lt_trichotomy [] (y ∷ ys) h k = cc
lex_lt_trichotomy (x ∷ xs) [] h k = cc
lex_lt_trichotomy (x ∷ xs) (y ∷ ys) h k = ground (arith, lex_lt_trichotomy xs ys)

lex_lt_trans : (xs ys zs : Bytes) → lex_lt xs ys ≡ true → lex_lt ys zs ≡ true → lex_lt xs zs ≡ true
unfolding lex_lt
lex_lt_trans [] [] zs h k = cc
lex_lt_trans [] (y ∷ ys) [] h k = cc
lex_lt_trans [] (y ∷ ys) (z ∷ zs) h k = refl
lex_lt_trans (x ∷ xs) [] zs h k = cc
lex_lt_trans (x ∷ xs) (y ∷ ys) [] h k = cc
lex_lt_trans (x ∷ xs) (y ∷ ys) (z ∷ zs) h k = ground (arith, lex_lt_trans xs ys zs)

lex_lt_asymm : (xs ys : Bytes) → lex_lt xs ys ≡ true → lex_lt ys xs ≡ false
lex_lt_asymm xs ys h = elim (Bool-cases (lex_lt ys xs)) [
  | inl k ↦ cc (lex_lt_trans xs ys xs h k, lex_lt_irrefl xs)
  | inr k ↦ k
]

bytes_eq_of_lt : (xs ys : Bytes) → lex_lt xs ys ≡ true → bytes_eq xs ys ≡ false
bytes_eq_of_lt xs ys h = elim (Bool-cases (bytes_eq xs ys)) [
  | inl e ↦ cc (bytes_eq→eq xs ys e, lex_lt_irrefl xs)
  | inr e ↦ e
]

bytes_eq_of_gt : (xs ys : Bytes) → lex_lt ys xs ≡ true → bytes_eq xs ys ≡ false
bytes_eq_of_gt xs ys h = elim (Bool-cases (bytes_eq xs ys)) [
  | inl e ↦ cc (bytes_eq→eq xs ys e, lex_lt_irrefl xs)
  | inr e ↦ e
]

-- `strcasecmp` decides between three cases.
pub data KeyOrder (k j : Bytes) : Type 0 where
  before : less k j ≡ true → less j k ≡ false → same_key k j ≡ false → KeyOrder k j
  after : less k j ≡ false → less j k ≡ true → same_key k j ≡ false → KeyOrder k j
  same : less k j ≡ false → less j k ≡ false → fold_key k ≡ fold_key j → KeyOrder k j

pub key_order : (k j : Bytes) → KeyOrder k j
unfolding less same_key
key_order k j = elim (Bool-cases (lex_lt (fold_key k) (fold_key j))) [
  | inl lt ↦
      before lt (lex_lt_asymm (fold_key k) (fold_key j) lt)
        (bytes_eq_of_lt (fold_key k) (fold_key j) lt)
  | inr ge ↦ elim (Bool-cases (lex_lt (fold_key j) (fold_key k))) [
    | inl gt ↦ after ge gt (bytes_eq_of_gt (fold_key k) (fold_key j) gt)
    | inr le ↦ same ge le (lex_lt_trichotomy (fold_key k) (fold_key j) ge le)
  ]
]

-- Only the folded form of a key counts.
pub same_key-fold : (a k j : Bytes) → fold_key k ≡ fold_key j → same_key a k ≡ same_key a j
unfolding same_key
same_key-fold a k j e = ap (bytes_eq (fold_key a)) e

same_key_cancel : (a k j : Bytes) → same_key a k ≡ true → same_key a j ≡ true → same_key k j ≡ true
unfolding same_key
same_key_cancel a k j h g = cc (
  bytes_eq→eq (fold_key a) (fold_key k) h,
  bytes_eq→eq (fold_key a) (fold_key j) g,
  bytes_eq_refl (fold_key a),
)

-- After `m[k] = v` a lookup finds `v` under every key that is `k` but for case, and under any other
-- key what it found before.
pub find-insert :
    (a k v : Bytes) (m : Headers)
    → find a (insert k v m) ≡ (if same_key a k then some v else find a m)
unfolding find insert
find-insert a k v [] = refl
find-insert a k v ((j, w) ∷ m) = go (key_order k j) (find-insert a k v m)
  where
    go :
        KeyOrder k j
        → find a (insert k v m) ≡ (if same_key a k then some v else find a m)
        → find a (insert k v ((j, w) ∷ m)) ≡ (if same_key a k then some v else find a ((j, w) ∷ m))
    go (before p q r) ih = rw p refl
    go (after p q r) ih = rw (p, q) (ground (arith, ih, same_key_cancel a k j))
    go (same p q r) ih = rw (p, q, same_key-fold a k j r) (ground arith)

-- The entries are in strictly rising order of their folded keys: no two keys are equal but for
-- case.
abbrev pub IsOrdered : Headers → Type 0
IsOrdered [] = Unit
IsOrdered ((j, w) ∷ m) = All (λ e. less j e.0 ≡ true) m × IsOrdered m

less_trans : (k j i : Bytes) → less k j ≡ true → less j i ≡ true → less k i ≡ true
unfolding less
less_trans k j i h g = lex_lt_trans (fold_key k) (fold_key j) (fold_key i) h g

less-All :
    (k j : Bytes) (m : Headers)
    → less k j ≡ true
    → All (λ e. less j e.0 ≡ true) m
    → All (λ e. less k e.0 ≡ true) m
less-All k j [] h g = tt
less-All k j ((i, v) ∷ m) h g = (less_trans k j i h g.0, less-All k j m h g.1)

insert_above :
    (j k v : Bytes) (m : Headers)
    → less j k ≡ true
    → All (λ e. less j e.0 ≡ true) m
    → All (λ e. less j e.0 ≡ true) (insert k v m)
unfolding insert
insert_above j k v [] h g = (h, tt)
insert_above j k v ((i, w) ∷ m) h g = go (key_order k i) (insert_above j k v m h g.1)
  where
    go :
        KeyOrder k i
        → All (λ e. less j e.0 ≡ true) (insert k v m)
        → All (λ e. less j e.0 ≡ true) (insert k v ((i, w) ∷ m))
    go (before p q r) ih = rw p (h, g)
    go (after p q r) ih = rw (p, q) (g.0, ih)
    go (same p q r) ih = rw (p, q) g

-- `m[k] = v` keeps the order.
pub insert-IsOrdered : (k v : Bytes) (m : Headers) → IsOrdered m → IsOrdered (insert k v m)
unfolding insert
insert-IsOrdered k v [] h = (tt, tt)
insert-IsOrdered k v ((j, w) ∷ m) h = go (key_order k j) (insert-IsOrdered k v m h.1)
  where
    go : KeyOrder k j → IsOrdered (insert k v m) → IsOrdered (insert k v ((j, w) ∷ m))
    go (before p q r) ih = rw p ((p, less-All k j m p h.0), h)
    go (after p q r) ih = rw (p, q) (insert_above j k v m q h.0, ih)
    go (same p q r) ih = rw (p, q) h

same_key_of_less : (a k j : Bytes) → less k j ≡ true → same_key a k ≡ true → same_key a j ≡ false
unfolding less same_key
same_key_of_less a k j h e =
    rw (bytes_eq→eq (fold_key a) (fold_key k) e) (bytes_eq_of_lt (fold_key k) (fold_key j) h)

find_above :
    (a k : Bytes) (m : Headers)
    → All (λ e. less k e.0 ≡ true) m
    → same_key a k ≡ true
    → find a m ≡ none
unfolding find
find_above a k [] h e = refl
find_above a k ((j, w) ∷ m) h e = rw (same_key_of_less a k j h.0 e) (find_above a k m h.1 e)

same_key_congr : (a k j : Bytes) → same_key k j ≡ true → same_key a k ≡ same_key a j
unfolding same_key
same_key_congr a k j h = ap (bytes_eq (fold_key a)) (bytes_eq→eq (fold_key k) (fold_key j) h)

-- After `erase(k)` on an ordered map nothing is found under `k`, in any case of its letters, and
-- any other key finds what it found before.
pub find-erase :
    (a k : Bytes) (m : Headers)
    → IsOrdered m
    → find a (erase k m) ≡ (if same_key a k then none else find a m)
unfolding find erase
find-erase a k [] h = ground arith
find-erase a k ((j, w) ∷ m) h = elim (Bool-cases (same_key k j)) [
  | inl e ↦ rw (e, same_key_congr a k j e) (ground (arith, find_above a j m h.0))
  | inr e ↦ rw e (ground (arith, find-erase a k m h.1, same_key_cancel a k j, e))
]
