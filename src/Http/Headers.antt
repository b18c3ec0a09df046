-- ===== src/Http/Headers.antt =====
-- `MapType` of shero/net/http/HttpCommon.h: a `std::map` ordered by `strcasecmp`, as the list of
-- its entries in that order.
pub mod Laws
use shero.Common.{
  ℕ, Bool, true, false, Option, none, some, List, [], ◌∷◌, ltb, ◌==◌, ◌&&◌, ◌||◌, if◌then◌else◌,
  map,
}
use shero.Common.Bytes.{Bytes, c_str, to_lower, bytes_eq}

abbrev pub Headers : Type 0
Headers = List (Bytes × Bytes)

-- What `strcasecmp` compares.
unfoldable pub fold_key : Bytes → Bytes
fold_key key = map to_lower (c_str key)

-- The order of `strcmp` on bytes.
unfoldable pub lex_lt : Bytes → Bytes → Bool
lex_lt [] [] = false
lex_lt [] (y ∷ ys) = true
lex_lt (x ∷ xs) [] = false
lex_lt (x ∷ xs) (y ∷ ys) = ltb x y || (x == y && lex_lt xs ys)

-- `CaseInsensitiveLess`.
unfoldable pub less : Bytes → Bytes → Bool
less l r = lex_lt (fold_key l) (fold_key r)

-- `strcasecmp(l, r) == 0`.
unfoldable pub same_key : Bytes → Bytes → Bool
same_key l r = bytes_eq (fold_key l) (fold_key r)

-- `find`.
unfoldable pub find : Bytes → Headers → Option Bytes
find key [] = none
find key ((j, v) ∷ m) = if same_key key j then some v else find key m

-- `m[key] = val`: an equivalent key that is there keeps its spelling.
unfoldable pub insert : Bytes → Bytes → Headers → Headers
insert key val [] = (key, val) ∷ []
insert key val ((j, v) ∷ m) =
    if less key j
    then (key, val) ∷ (j, v) ∷ m
    else if less j key
    then (j, v) ∷ insert key val m
    else (j, val) ∷ m

-- `erase`.
unfoldable pub erase : Bytes → Headers → Headers
erase key [] = []
erase key ((j, v) ∷ m) = if same_key key j then m else (j, v) ∷ erase key m

-- `getHeader(key, def)`.
unfoldable pub get_header : Bytes → Bytes → Headers → Bytes
get_header key def m = elim (find key m) [ none ↦ def | some v ↦ v ]

-- `hasHeader(key, &val)`, with `*val` as it was before.
unfoldable pub has_header : Bytes → Bytes → Headers → Bool × Bytes
has_header key val m = elim (find key m) [ none ↦ (false, val) | some v ↦ (true, v) ]
