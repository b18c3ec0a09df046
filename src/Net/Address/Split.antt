-- ===== src/Net/Address/Split.antt =====
-- Which hosts shero/net/Address.cc splits into a node and a service.
use shero.Common.{ℕ, ◌≡◌, ◌≢◌, refl, ap, Option, none, some, [], ◌∷◌, ◌++◌, All, arith}
use shero.Common.Bytes.{Bytes, split_at-append, split_at-none}
use shero.Net.Address.{between, bracketed, plain, choose, split_host}

abbrev pub NoColon : Bytes → Type 0
NoColon = All (λ x. x ≢ b':')

-- A node as the user means it, written with its service: in brackets where it holds a colon.
pub data Written : Bytes → Bytes → Option Bytes → Type 0 where
  alone : (c : ℕ) (cs : Bytes) → c ≢ b'[' → NoColon (c ∷ cs) → Written (c ∷ cs) (c ∷ cs) none
  with_service :
      (c : ℕ) (cs service : Bytes)
      → c ≢ b'['
      → NoColon (c ∷ cs)
      → NoColon service
      → Written ((c ∷ cs) ++ (b':' ∷ service)) (c ∷ cs) (some service)
  in_brackets :
      (c : ℕ) (cs : Bytes)
      → All (λ x. x ≢ b']') (c ∷ cs)
      → Written (b'[' ∷ ((c ∷ cs) ++ (b']' ∷ []))) (c ∷ cs) none
  in_brackets_with_service :
      (c : ℕ) (cs service : Bytes)
      → All (λ x. x ≢ b']') (c ∷ cs)
      → Written (b'[' ∷ ((c ∷ cs) ++ (b']' ∷ (b':' ∷ service)))) (c ∷ cs) (some service)

not_bracketed : (c : ℕ) (host : Bytes) → c ≢ b'[' → bracketed (c ∷ host) ≡ none
unfolding bracketed
not_bracketed c host h = ground arith

-- A host that is a node without colon, alone or with a service, or any node in brackets, alone or with a
-- service, is split into that node and that service.
pub split_host-Written :
    (host node : Bytes) (service : Option Bytes)
    → Written host node service
    → split_host host ≡ (node, service)
unfolding split_host choose plain
split_host-Written host node service (alone c cs h k) =
    rw (not_bracketed c cs h, split_at-none b':' (c ∷ cs) k) refl
split_host-Written host node service (with_service c cs text h k l) =
    rw
      (
        not_bracketed c (cs ++ (b':' ∷ text)) h,
        split_at-append b':' (c ∷ cs) text k,
        split_at-none b':' text l,
      )
      refl
split_host-Written host node service (in_brackets c cs h) =
    ap (λ o. choose (between o) (b'[' ∷ ((c ∷ cs) ++ (b']' ∷ []))))
      (split_at-append b']' (c ∷ cs) [] h)
split_host-Written host node service (in_brackets_with_service c cs text h) =
    ap (λ o. choose (between o) (b'[' ∷ ((c ∷ cs) ++ (b']' ∷ (b':' ∷ text)))))
      (split_at-append b']' (c ∷ cs) (b':' ∷ text) h)

-- A bare node with two colons or more is not taken for a node and a service, and yet a service is asked
-- for: everything from the first colon on.
pub split_host_two_colons :
    (c : ℕ) (front mid back : Bytes)
    → c ≢ b'['
    → NoColon (c ∷ front)
    → NoColon mid
    → split_host ((c ∷ front) ++ (b':' ∷ (mid ++ (b':' ∷ back))))
      ≡ ((c ∷ front) ++ (b':' ∷ (mid ++ (b':' ∷ back))), some (b':' ∷ (mid ++ (b':' ∷ back))))
unfolding split_host choose plain
split_host_two_colons c front mid back h k l =
    rw
      (
        not_bracketed c (front ++ (b':' ∷ (mid ++ (b':' ∷ back)))) h,
        split_at-append b':' (c ∷ front) (mid ++ (b':' ∷ back)) k,
        split_at-append b':' mid back l,
      )
      refl
