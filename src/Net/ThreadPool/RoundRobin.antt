-- ===== src/Net/ThreadPool/RoundRobin.antt =====
-- The pool gives its loops out in turn.
use shero.Common.{
  ℕ, zero, suc, ◌+◌, ◌-◌, ◌<◌, ◌≡◌, refl, sym, ap, ◌∙◌, true, false, Option, none, some, List, [],
  ◌∷◌, ltb, if◌then◌else◌, length, get_elem?, drop, drop_all, arith,
}
use shero.Net.ThreadPool.{ThreadPool, advance, pick_from, get_next_loop}

module _ {ℓ} {L : Type ℓ} where
  -- The loops of `n` calls in turn, and the pool behind them.
  abbrev pub picks : ℕ → ThreadPool L → Option (List L × ThreadPool L)
  picks zero p = some ([], p)
  picks (suc n) p = elim (get_next_loop p) [
    | none ↦ none
    | some (loop, p') ↦ elim (picks n p') [ none ↦ none | some (ls, q) ↦ some (loop ∷ ls, q) ]
  ]

  record Nth (xs : List L) (i : ℕ) : Type ℓ where
    item : L
    there : get_elem? xs i ≡ some item
    rest : drop i xs ≡ item ∷ drop (suc i) xs

  nth : (xs : List L) (i : ℕ) → i < length xs → Nth xs i
  nth [] i h = absurd (omega arith)
  nth (x ∷ xs) zero h = record { item = x; there = refl; rest = refl }
  nth (x ∷ xs) (suc i) h =
      let n = nth xs i (omega arith) in record { item = n.item; there = n.there; rest = n.rest }

  pick_from-get_elem? :
      (ls : List L) (p : ThreadPool L) (loop : L)
      → get_elem? ls p.next ≡ some loop
      → pick_from ls p ≡ some (loop, advance p)
  unfolding pick_from
  pick_from-get_elem? [] p loop e = cc
  pick_from-get_elem? (l ∷ ls) p loop e = rw (pick_from, e) refl

-- A started pool whose turn is at loop `i`.
abbrev pub pool_at {ℓ} : {L : Type ℓ} → List L → L → ℕ → ℕ → ThreadPool L
pool_at ls base threads i = record {
  started = true;
  next = i;
  num_threads = threads;
  loops = ls;
  base_loop = base;
}

module _ {ℓ} {L : Type ℓ} (ls : List L) (base : L) (threads : ℕ) where
  get_next_loop-pool_at :
      (i : ℕ) (loop : L)
      → get_elem? ls i ≡ some loop
      → get_next_loop (pool_at ls base threads i)
        ≡ some (
          loop,
          if ltb (suc i) (length ls)
              then pool_at ls base threads (suc i)
              else pool_at ls base threads 0,
        )
  unfolding get_next_loop advance
  get_next_loop-pool_at i loop e = pick_from-get_elem? ls (pool_at ls base threads i) loop e

  -- The rest of a round: `k` more calls after the one at position `i` end at the last loop.
  picks_from :
      (k i : ℕ)
      → i + suc k ≡ length ls
      → picks (suc k) (pool_at ls base threads i) ≡ some (drop i ls, pool_at ls base threads 0)
  unfolding get_next_loop pick_from
  picks_from zero i h =
      let n = nth ls i (omega arith) in
      let last : ltb (suc i) (length ls) ≡ false = ground arith in
      rw (get_next_loop-pool_at i n.item n.there, last)
        (ap (λ t. some (t, pool_at ls base threads 0))
          (sym (n.rest ∙ ap (λ t. n.item ∷ t) (drop_all (suc i) ls (omega arith)))))
  picks_from (suc k) i h =
      let n = nth ls i (omega arith) in
      let more : ltb (suc i) (length ls) ≡ true = ground arith in
      rw (get_next_loop-pool_at i n.item n.there, more, picks_from k (suc i) (omega arith))
        (ap (λ t. some (t, pool_at ls base threads 0)) (sym n.rest))

  -- A started pool with at least one loop whose turn is at the first gives its loops out in their
  -- order, each once, in as many calls as there are loops, and is then as it was before.
  pub picks-pool_at :
      0 < length ls
      → picks (length ls) (pool_at ls base threads 0) ≡ some (ls, pool_at ls base threads 0)
  picks-pool_at h =
      let e : suc (length ls - 1) ≡ length ls = omega arith in
      ap (λ (n : ℕ). picks n (pool_at ls base threads 0)) (sym e)
      ∙ picks_from (length ls - 1) 0 (omega arith)
