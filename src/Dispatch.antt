-- ===== src/Dispatch.antt =====
-- shero/net/AbstractDispatch.h and the two classes that implement it in the same words,
-- shero/net/http/HttpDispatch.cc and shero/net/websocket/WSDispatch.cc: which servlet answers a URI.
-- `S` stands for a servlet pointer. The `std::unordered_map` is a list of its entries, of which no
-- two have the same key; its order is not observed. `fnmatch` is the C library's. A method holds
-- the object's mutex while it works, so it is one step here; `addGlobServlet` takes it twice, and no
-- other call comes in between here.
pub mod Laws
use shero.Common.{
  ℕ, Bool, true, false, Option, none, some, List, [], ◌∷◌, ◌++◌, ◌==◌, if◌then◌else◌,
}
use shero.Common.Bytes.{Bytes, bytes_eq, c_str}

pub record Dispatch {ℓ} (S : Type ℓ) : Type ℓ where
  pub default : S
  pub servlets : List (Bytes × S)
  pub glob_servlets : List (Bytes × S)

module _ {ℓ} {S : Type ℓ} where
  -- The constructor, with the servlet that answers what no other does.
  unfoldable pub new_dispatch : S → Dispatch S
  new_dispatch default = record { default = default; servlets = []; glob_servlets = [] }

  unfoldable pub set_default_servlet : S → Dispatch S → Dispatch S
  set_default_servlet v d = record d { default = v }

  -- `find` of the map, and the search for an entry with this very pattern.
  unfoldable pub lookup : Bytes → List (Bytes × S) → Option S
  lookup uri [] = none
  lookup uri ((u, s) ∷ l) = if bytes_eq u uri then some s else lookup uri l

  -- `m_servlets[uri] = slt`.
  unfoldable pub assign : Bytes → S → List (Bytes × S) → List (Bytes × S)
  assign uri slt [] = (uri, slt) ∷ []
  assign uri slt ((u, s) ∷ l) = if bytes_eq u uri then (u, slt) ∷ l else (u, s) ∷ assign uri slt l

  -- `erase` of the first entry with this key.
  unfoldable pub erase_first : Bytes → List (Bytes × S) → List (Bytes × S)
  erase_first uri [] = []
  erase_first uri ((u, s) ∷ l) = if bytes_eq u uri then l else (u, s) ∷ erase_first uri l

  unfoldable pub add_servlet : Bytes → S → Dispatch S → Dispatch S
  add_servlet uri slt d = record d { servlets = assign uri slt d.servlets }

  unfoldable pub del_servlet : Bytes → Dispatch S → Dispatch S
  del_servlet uri d = record d { servlets = erase_first uri d.servlets }

  unfoldable pub del_glob_servlet : Bytes → Dispatch S → Dispatch S
  del_glob_servlet uri d = record d { glob_servlets = erase_first uri d.glob_servlets }

  -- Deletes the entry with this pattern, then pushes the new one at the back.
  unfoldable pub add_glob_servlet : Bytes → S → Dispatch S → Dispatch S
  add_glob_servlet uri slt d =
      let d' = del_glob_servlet uri d in
      record d' { glob_servlets = d'.glob_servlets ++ ((uri, slt) ∷ []) }

  unfoldable pub get_servlet : Bytes → Dispatch S → Option S
  get_servlet uri d = lookup uri d.servlets

  unfoldable pub get_glob_servlet : Bytes → Dispatch S → Option S
  get_glob_servlet uri d = lookup uri d.glob_servlets

  unfoldable pub or_default : S → Option S → S
  or_default default none = default
  or_default default (some s) = s

-- `fnmatch(pattern, uri, 0)`.
module _ {ℓ} {S : Type ℓ} (fnmatch : Bytes → Bytes → ℕ) where
  -- The loop over the patterns.
  unfoldable pub glob_match : Bytes → List (Bytes × S) → Option S
  glob_match uri [] = none
  glob_match uri ((pattern, s) ∷ l) =
      if fnmatch (c_str pattern) (c_str uri) == 0 then some s else glob_match uri l

  -- `getMatchedServlet`: the exact entry, or the first pattern that matches, or the default.
  unfoldable pub get_matched_servlet : Bytes → Dispatch S → S
  unfolding or_default
  get_matched_servlet uri d = elim (lookup uri d.servlets) [
    | some s ↦ s
    | none ↦ or_default d.default (glob_match uri d.glob_servlets)
  ]
