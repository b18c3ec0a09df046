-- ===== src/Dispatch/Laws.antt =====
-- What the dispatcher promises: the entries are keyed, reads see the last write, and an exact entry
-- comes before the patterns, which are tried in the order in which they were last added.
use shero.Common.{
  ℕ, ◌≡◌, refl, ap, ◌∙◌, true, false, none, some, List, [], ◌∷◌, ◌++◌, ◌==◌, if◌then◌else◌, arith,
  All, All-append, Bool-cases, inl, inr,
}
use shero.Common.Bytes.{Bytes, bytes_eq, bytes_eq_refl, bytes_eq→eq, c_str}
use shero.Dispatch.{
  Dispatch, lookup, assign, erase_first, add_servlet, del_servlet, del_glob_servlet,
  add_glob_servlet, get_servlet, get_glob_servlet, glob_match, or_default, get_matched_servlet,
}

eq_swap : (u v : Bytes) → bytes_eq u v ≡ false → bytes_eq v u ≡ false
eq_swap u v h = elim (Bool-cases (bytes_eq v u)) [
  | inl e ↦ cc (bytes_eq→eq v u e, bytes_eq_refl u, h)
  | inr e ↦ e
]

module _ {ℓ} {S : Type ℓ} where
  -- No two entries have the same key.
  abbrev pub IsKeyed : List (Bytes × S) → Type ℓ
  IsKeyed [] = Unit
  IsKeyed ((u, s) ∷ l) = All (λ e. bytes_eq e.0 u ≡ false) l × IsKeyed l

  pub lookup-assign :
      (k uri : Bytes) (slt : S) (l : List (Bytes × S))
      → lookup k (assign uri slt l) ≡ (if bytes_eq uri k then some slt else lookup k l)
  unfolding lookup assign
  lookup-assign k uri slt [] = refl
  lookup-assign k uri slt ((u, s) ∷ l) =
      ground
        (arith, lookup-assign k uri slt l, bytes_eq→eq u uri, bytes_eq→eq uri k, bytes_eq_refl k)

  lookup_absent :
      (u k : Bytes) (l : List (Bytes × S))
      → All (λ e. bytes_eq e.0 u ≡ false) l
      → bytes_eq u k ≡ true
      → lookup k l ≡ none
  unfolding lookup
  lookup_absent u k [] h e = refl
  lookup_absent u k ((v, s) ∷ l) h e =
      ground (arith, h.0, lookup_absent u k l h.1 e, ap (bytes_eq v) (bytes_eq→eq u k e))

  pub lookup-erase_first :
      (k uri : Bytes) (l : List (Bytes × S))
      → IsKeyed l
      → lookup k (erase_first uri l) ≡ (if bytes_eq uri k then none else lookup k l)
  unfolding lookup erase_first
  lookup-erase_first k uri [] h = ground arith
  lookup-erase_first k uri ((u, s) ∷ l) h = elim (Bool-cases (bytes_eq u uri)) [
    | inl e ↦
        rw (e, bytes_eq→eq u uri e) (ground (arith, lookup_absent u k l h.0, bytes_eq→eq u uri e))
    | inr e ↦ rw e (
        ground (
          arith,
          lookup-erase_first k uri l h.1,
          bytes_eq→eq u k,
          bytes_eq→eq uri k,
          bytes_eq_refl k,
          e,
        ))
  ]

  lookup-append :
      (k : Bytes) (l m : List (Bytes × S))
      → lookup k (l ++ m) ≡ elim (lookup k l) [ none ↦ lookup k m | some s ↦ some s ]
  unfolding lookup
  lookup-append k [] m = refl
  lookup-append k ((u, s) ∷ l) m = ground (arith, lookup-append k l m)

  erase_first-All :
      (P : Bytes × S → Type 0) (uri : Bytes) (l : List (Bytes × S))
      → All P l
      → All P (erase_first uri l)
  unfolding erase_first
  erase_first-All P uri [] h = h
  erase_first-All P uri ((u, s) ∷ l) h = elim (Bool-cases (bytes_eq u uri)) [
    | inl e ↦ rw e h.1
    | inr e ↦ rw e (h.0, erase_first-All P uri l h.1)
  ]

  pub erase_first-IsKeyed :
      (uri : Bytes) (l : List (Bytes × S)) → IsKeyed l → IsKeyed (erase_first uri l)
  unfolding erase_first
  erase_first-IsKeyed uri [] h = h
  erase_first-IsKeyed uri ((u, s) ∷ l) h = elim (Bool-cases (bytes_eq u uri)) [
    | inl e ↦ rw e h.1
    | inr e ↦
        rw e
          (erase_first-All (λ e. bytes_eq e.0 u ≡ false) uri l h.0, erase_first-IsKeyed uri l h.1)
  ]

  assign-All :
      (v uri : Bytes) (slt : S) (l : List (Bytes × S))
      → bytes_eq uri v ≡ false
      → All (λ e. bytes_eq e.0 v ≡ false) l
      → All (λ e. bytes_eq e.0 v ≡ false) (assign uri slt l)
  unfolding assign
  assign-All v uri slt [] e h = (e, tt)
  assign-All v uri slt ((u, s) ∷ l) e h = elim (Bool-cases (bytes_eq u uri)) [
    | inl k ↦ rw k h
    | inr k ↦ rw k (h.0, assign-All v uri slt l e h.1)
  ]

  pub assign-IsKeyed :
      (uri : Bytes) (slt : S) (l : List (Bytes × S)) → IsKeyed l → IsKeyed (assign uri slt l)
  unfolding assign
  assign-IsKeyed uri slt [] h = (tt, tt)
  assign-IsKeyed uri slt ((u, s) ∷ l) h = elim (Bool-cases (bytes_eq u uri)) [
    | inl e ↦ rw e h
    | inr e ↦ rw e (assign-All u uri slt l (eq_swap u uri e) h.0, assign-IsKeyed uri slt l h.1)
  ]

  pub append-IsKeyed :
      (uri : Bytes) (slt : S) (l : List (Bytes × S))
      → IsKeyed l
      → lookup uri l ≡ none
      → IsKeyed (l ++ ((uri, slt) ∷ []))
  unfolding lookup
  append-IsKeyed uri slt [] h e = (tt, tt)
  append-IsKeyed uri slt ((u, s) ∷ l) h e = elim (Bool-cases (bytes_eq u uri)) [
    | inl k ↦ ground (arith, k, e)
    | inr k ↦ (
      All-append (λ e. bytes_eq e.0 u ≡ false) l ((uri, slt) ∷ []) h.0 (eq_swap u uri k, tt),
      append-IsKeyed uri slt l h.1 (ground (arith, k, e)),
    )
  ]

  pub record IsValid (d : Dispatch S) : Type ℓ where
    pub keyed : IsKeyed d.servlets
    pub glob_keyed : IsKeyed d.glob_servlets

  erased_absent :
      (uri : Bytes) (l : List (Bytes × S)) → IsKeyed l → lookup uri (erase_first uri l) ≡ none
  erased_absent uri l h =
      lookup-erase_first uri uri l h
      ∙ ap (λ b. if b then none else lookup uri l) (bytes_eq_refl uri)

  -- Each of the four methods that change the tables keeps their keys distinct, in both tables.
  pub dispatch-IsValid :
      (uri : Bytes) (slt : S) {d : Dispatch S}
      → IsValid d
      → IsValid (add_servlet uri slt d)
        × IsValid (del_servlet uri d)
        × IsValid (add_glob_servlet uri slt d)
        × IsValid (del_glob_servlet uri d)
  unfolding add_servlet del_servlet add_glob_servlet del_glob_servlet
  dispatch-IsValid uri slt {d} v =
      let g = erase_first-IsKeyed uri d.glob_servlets v.glob_keyed in
      (
        record { keyed = assign-IsKeyed uri slt d.servlets v.keyed; glob_keyed = v.glob_keyed },
        record { keyed = erase_first-IsKeyed uri d.servlets v.keyed; glob_keyed = v.glob_keyed },
        record {
          keyed = v.keyed;
          glob_keyed =
              append-IsKeyed uri slt (erase_first uri d.glob_servlets) g
                (erased_absent uri d.glob_servlets v.glob_keyed);
        },
        record { keyed = v.keyed; glob_keyed = g },
      )

  -- After `addGlobServlet(uri, slt)` the pattern `uri` has `slt`, and every other what it had.
  pub get_glob_servlet-add_glob_servlet :
      (k uri : Bytes) (slt : S) {d : Dispatch S}
      → IsValid d
      → get_glob_servlet k (add_glob_servlet uri slt d)
        ≡ (if bytes_eq uri k then some slt else get_glob_servlet k d)
  unfolding get_glob_servlet add_glob_servlet del_glob_servlet lookup
  get_glob_servlet-add_glob_servlet k uri slt {d} v = ground (
    arith,
    lookup-append k (erase_first uri d.glob_servlets) ((uri, slt) ∷ []),
    lookup-erase_first k uri d.glob_servlets v.glob_keyed,
  )

  -- After `delServlet(uri)` and `delGlobServlet(uri)` nothing is registered under `uri`, and every
  -- other URI and pattern has what it had.
  pub get_servlet-del_servlet :
      (k uri : Bytes) {d : Dispatch S}
      → IsValid d
      → (get_servlet k (del_servlet uri d) ≡ (if bytes_eq uri k then none else get_servlet k d))
        × (get_glob_servlet k (del_glob_servlet uri d)
            ≡ (if bytes_eq uri k then none else get_glob_servlet k d))
  unfolding get_servlet del_servlet get_glob_servlet del_glob_servlet
  get_servlet-del_servlet k uri {d} v = (
    lookup-erase_first k uri d.servlets v.keyed,
    lookup-erase_first k uri d.glob_servlets v.glob_keyed,
  )

module _ {ℓ} {S : Type ℓ} (fnmatch : Bytes → Bytes → ℕ) where
  -- After `addServlet(uri, slt)` the URI is answered by `slt`, whatever patterns match it, and every
  -- other URI as before.
  pub get_matched_servlet-add_servlet :
      (k uri : Bytes) (slt : S) (d : Dispatch S)
      → get_matched_servlet fnmatch k (add_servlet uri slt d)
        ≡ (if bytes_eq uri k then slt else get_matched_servlet fnmatch k d)
  unfolding get_matched_servlet add_servlet
  get_matched_servlet-add_servlet k uri slt d = ground (arith, lookup-assign k uri slt d.servlets)

  glob_match-append :
      (k : Bytes) (l m : List (Bytes × S))
      → glob_match fnmatch k (l ++ m)
        ≡ elim (glob_match fnmatch k l) [ none ↦ glob_match fnmatch k m | some s ↦ some s ]
  unfolding glob_match
  glob_match-append k [] m = refl
  glob_match-append k ((u, s) ∷ l) m = ground (arith, glob_match-append k l m)

  -- A pattern added last is asked last: a URI without an exact entry is answered by the first older
  -- pattern that matches it, other than an entry under the very same pattern, then by the new one
  -- where it matches, then by the default servlet; a URI with an exact entry by that.
  pub get_matched_servlet-add_glob_servlet :
      (k uri : Bytes) (slt : S) (d : Dispatch S)
      → get_matched_servlet fnmatch k (add_glob_servlet uri slt d) ≡ elim (get_servlet k d) [
        | some s ↦ s
        | none ↦ elim (glob_match fnmatch k (del_glob_servlet uri d).glob_servlets) [
          | some s ↦ s
          | none ↦ if fnmatch (c_str uri) (c_str k) == 0 then slt else d.default
        ]
      ]
  unfolding get_matched_servlet add_glob_servlet del_glob_servlet get_servlet glob_match or_default
  get_matched_servlet-add_glob_servlet k uri slt d =
      ground (arith, glob_match-append k (erase_first uri d.glob_servlets) ((uri, slt) ∷ []))
