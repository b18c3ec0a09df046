-- ===== src/Base/Util.antt =====
-- `RandomString` of shero/base/Util.cc. `rand i` is what call `i` of `rand()` gives.
use shero.Common.{ℕ, zero, suc, ◌+◌, ◌%◌, [], ◌∷◌, ◌++◌, Option, none, some, get_elem?}
use shero.Common.Bytes.{Bytes, codes}

-- `CHARS`, with the NUL at its end: `sizeof(CHARS)` counts it.
abbrev pub chars : Bytes
chars = codes "0123456789abcdefghijklmnopqrstuvwxyzABCDEFGHIJKLMNOPQRSTUVWXYZ" ++ (0 ∷ [])

abbrev pub chars_size : ℕ
chars_size = 63

abbrev pub char_or_nul : Option ℕ → ℕ
char_or_nul none = 0
char_or_nul (some c) = c

-- The loop from position `i` on, with `len` to go.
unfoldable pub random_from : ℕ → (ℕ → ℕ) → ℕ → Bytes
random_from i rand zero = []
random_from i rand (suc len) =
    char_or_nul (get_elem? chars (rand i % chars_size)) ∷ random_from (i + 1) rand len

unfoldable pub random_string : (ℕ → ℕ) → ℕ → Bytes
unfolding random_from
random_string rand len = random_from 0 rand len
