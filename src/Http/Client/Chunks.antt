-- ===== src/Http/Client/Chunks.antt =====
-- How the client puts a body together: it does not matter where the network cut it.
use shero.Common.{
  ℕ, zero, suc, ◌-◌, ◌≤◌, ◌<◌, ◌≡◌, refl, sym, ap, ◌∙◌, true, false, none, some, List, [], ◌∷◌,
  ◌++◌, leb, length, take, drop, arith, Bool-cases, inl, inr, append_assoc, append-nil,
  length-append, take-append_ge, take-append_le, drop-append_ge, drop-append_le, Option,
}
use shero.Common.Bytes.{Bytes}
use shero.Http.Client.Response.{concat, take_remaining, chunk_body}

-- Enough has been received: the body with the chunk's data, and the rest in order.
pub record Taken (n : ℕ) (body whole : Bytes) (o : Option (Bytes × Bytes × List Bytes))
    : Type 0 where
  pub msg : Bytes
  pub rest : List Bytes
  pub result : o ≡ some (body ++ take n whole, msg, rest)
  pub left : msg ++ concat rest ≡ drop n whole

take_remaining-Taken :
    (n : ℕ) (body : Bytes) (rest : List Bytes)
    → n ≤ length (concat rest)
    → Taken n body (concat rest) (take_remaining n body [] rest)
unfolding take_remaining
take_remaining-Taken zero body rest le = record {
  msg = [];
  rest = rest;
  result = ap (λ t. some (t, [], rest)) (sym (append-nil body));
  left = refl;
}
take_remaining-Taken (suc n) body [] le = absurd (omega arith)
take_remaining-Taken (suc n) body (m ∷ rest) le = elim (Bool-cases (leb (length m) (suc n))) [
  | inr p ↦ record {
    msg = drop (suc n) m;
    rest = rest;
    result = rw (p, take-append_le (suc n) m (concat rest) (ground arith)) refl;
    left = sym (drop-append_le (suc n) m (concat rest) (ground arith));
  }
  | inl p ↦
      let ih =
        take_remaining-Taken (suc n - length m) (body ++ m) rest
          (omega (arith, length-append m (concat rest))) in
      record {
        msg = ih.msg;
        rest = ih.rest;
        result =
            rw (p, take-append_ge (suc n) m (concat rest) (ground arith))
              (ih.result
                ∙ ap (λ t. some (t, ih.msg, ih.rest))
                    (append_assoc body m (take (suc n - length m) (concat rest))));
        left = ih.left ∙ sym (drop-append_ge (suc n) m (concat rest) (ground arith));
      }
]

-- The text at hand is not looked at where more is needed.
take_remaining_text :
    (n : ℕ) (body msg : Bytes) (rest : List Bytes)
    → 0 < n
    → take_remaining n body msg rest ≡ take_remaining n body [] rest
unfolding take_remaining
take_remaining_text zero body msg rest lt = absurd (omega arith)
take_remaining_text (suc n) body msg [] lt = refl
take_remaining_text (suc n) body msg (m ∷ rest) lt = refl

take_remaining_short :
    (n : ℕ) (body msg : Bytes) (rest : List Bytes)
    → length (concat rest) < n
    → take_remaining n body msg rest ≡ none
unfolding take_remaining
take_remaining_short zero body msg rest lt = absurd (omega arith)
take_remaining_short (suc n) body msg [] lt = refl
take_remaining_short (suc n) body msg (m ∷ rest) lt =
    let long : leb (length m) (suc n) ≡ true = ground (arith, length-append m (concat rest)) in
    rw long (
      take_remaining_short (suc n - length m) (body ++ m) [] rest
        (omega (arith, length-append m (concat rest))))

-- A chunk of `n` bytes, where what was received has as many: they are appended to the body, and what
-- follows them is what is left, however the network cut it.
pub chunk_body-Taken :
    (n : ℕ) (body msg : Bytes) (rest : List Bytes)
    → n ≤ length (msg ++ concat rest)
    → Taken n body (msg ++ concat rest) (chunk_body n body msg rest)
unfolding chunk_body
chunk_body-Taken n body msg rest le = elim (Bool-cases (leb n (length msg))) [
  | inl p ↦ record {
    msg = drop n msg;
    rest = rest;
    result = rw (p, take-append_le n msg (concat rest) (ground arith)) refl;
    left = sym (drop-append_le n msg (concat rest) (ground arith));
  }
  | inr p ↦
      let taken =
        take_remaining-Taken (n - length msg) (body ++ msg) rest
          (omega (arith, length-append msg (concat rest))) in
      record {
        msg = taken.msg;
        rest = taken.rest;
        result =
            rw (p, take-append_ge n msg (concat rest) (ground arith))
              (take_remaining_text (n - length msg) (body ++ msg) msg rest (ground arith)
                ∙ taken.result
                ∙ ap (λ t. some (t, taken.msg, taken.rest))
                    (append_assoc body msg (take (n - length msg) (concat rest))));
        left = taken.left ∙ sym (drop-append_ge n msg (concat rest) (ground arith));
      }
]

-- Where it has fewer, there is no response.
pub chunk_body_short :
    (n : ℕ) (body msg : Bytes) (rest : List Bytes)
    → length (msg ++ concat rest) < n
    → chunk_body n body msg rest ≡ none
unfolding chunk_body
chunk_body_short n body msg rest lt =
    let short : leb n (length msg) ≡ false = ground (arith, length-append msg (concat rest)) in
    rw short (
      take_remaining_short (n - length msg) (body ++ msg) msg rest
        (omega (arith, length-append msg (concat rest))))
