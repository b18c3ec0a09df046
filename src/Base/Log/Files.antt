-- ===== src/Base/Log/Files.antt =====
-- What a round of shero/base/Log.cc's `mainLoop` writes, and to which file.
use shero.Common.{
  ℕ, ◌≡◌, refl, ap, sym, ◌∙◌, true, not, ◌||◌, Option, none, some, List, [], ◌∷◌, ◌++◌, ltb, All,
  All-append, All-imp, subst, Bool-cases, inl, inr,
}
use shero.Common.Bytes.{Bytes, bytes_eq, bytes_eq→eq}
use shero.Base.Log.{
  AsyncLogger, Effect, printed, opened, closed, wrote, close_old, has_file, file_name, new_date,
  open_file, rotate, write_all, write_batch,
}

-- What goes to files.
abbrev pub written : List Effect → Bytes
written [] = []
written (printed t ∷ es) = written es
written (opened n ∷ es) = written es
written (closed ∷ es) = written es
written (wrote n t ∷ es) = t ++ written es

abbrev pub joined : List Bytes → Bytes
joined [] = []
joined (t ∷ ts) = t ++ joined ts

-- A write to no other file.
abbrev pub GoesTo : Bytes → Effect → Type 0
GoesTo name (printed t) = Unit
GoesTo name (opened n) = Unit
GoesTo name closed = Unit
GoesTo name (wrote n t) = n ≡ name

abbrev pub IsQuiet : Effect → Type 0
IsQuiet (printed t) = Unit
IsQuiet (opened n) = Unit
IsQuiet closed = Unit
IsQuiet (wrote n t) = ⊥

written_quiet : (es fs : List Effect) → All IsQuiet es → written (es ++ fs) ≡ written fs
written_quiet [] fs h = refl
written_quiet (printed t ∷ es) fs h = written_quiet es fs h.1
written_quiet (opened n ∷ es) fs h = written_quiet es fs h.1
written_quiet (closed ∷ es) fs h = written_quiet es fs h.1
written_quiet (wrote n t ∷ es) fs h = absurd h.0

quiet-GoesTo : (name : Bytes) (e : Effect) → IsQuiet e → GoesTo name e
quiet-GoesTo name (printed t) h = tt
quiet-GoesTo name (opened n) h = tt
quiet-GoesTo name closed h = tt
quiet-GoesTo name (wrote n t) h = absurd h

close_old-IsQuiet : (o : Option Bytes) → All IsQuiet (close_old o)
close_old-IsQuiet none = tt
close_old-IsQuiet (some name) = (tt, tt)

-- The file that is open is the one of the date and the number, or is to be opened anew.
pub data IsNamed (l : AsyncLogger) : Type 0 where
  to_open : l.reopen ≡ true → IsNamed l
  current : l.file ≡ some (file_name l) → IsNamed l

new_date_lem :
    (date : Bytes) (l : AsyncLogger)
    → IsNamed l
    → IsNamed (new_date date l).0
      × ((new_date date l).0.date ≡ date)
      × All IsQuiet (new_date date l).1
unfolding new_date
new_date_lem date l h = elim (Bool-cases (bytes_eq date l.date)) [
  | inl p ↦ rw p (h, sym (bytes_eq→eq date l.date p), tt)
  | inr p ↦ rw p (to_open refl, refl, close_old-IsQuiet l.file)
]

open_file_lem :
    (l : AsyncLogger)
    → IsNamed l
    → ((open_file l).0.file ≡ some (file_name (open_file l).0))
      × ((open_file l).0.date ≡ l.date)
      × All IsQuiet (open_file l).1
unfolding open_file file_name
open_file_lem l (to_open h) =
    let p : (l.reopen || not (has_file l.file)) ≡ true = ap (λ b. b || not (has_file l.file)) h in
    rw p (refl, refl, (tt, tt))
open_file_lem l (current h) = elim (Bool-cases (l.reopen || not (has_file l.file))) [
  | inl p ↦ rw p (refl, refl, (tt, tt))
  | inr p ↦ rw p (h, refl, tt)
]

rotate_lem :
    (position : ℕ) (l : AsyncLogger)
    → l.file ≡ some (file_name l)
    → ((rotate position l).0.file ≡ some (file_name (rotate position l).0))
      × ((rotate position l).0.date ≡ l.date)
      × All IsQuiet (rotate position l).1
unfolding rotate file_name
rotate_lem position l h = elim (Bool-cases (ltb l.max_size position)) [
  | inl p ↦ rw p (refl, refl, (tt, (tt, tt)))
  | inr p ↦ rw p (h, refl, tt)
]

write_all_lem :
    (name : Bytes) (msg : List Bytes)
    → (written (write_all (some name) msg) ≡ joined msg)
      × All (GoesTo name) (write_all (some name) msg)
unfolding write_all
write_all_lem name [] = (refl, tt)
write_all_lem name ([] ∷ msg) = write_all_lem name msg
write_all_lem name ((x ∷ xs) ∷ msg) =
    let (e, h) = write_all_lem name msg in (ap (λ t. (x ∷ xs) ++ t) e, (refl, h))

quiet-All : (name : Bytes) (es : List Effect) → All IsQuiet es → All (GoesTo name) es
quiet-All name es = All-imp IsQuiet (GoesTo name) es (quiet-GoesTo name)

-- A round on a logger whose file is the one of its date and number, or is to be opened anew, writes the
-- batch's messages in order, and all of them to one file: the one of today's date and of the number
-- after the round, which is the file that stays open.
pub write_batch_lem :
    (date : Bytes) (position : ℕ) (msg : List Bytes) (l : AsyncLogger)
    → IsNamed l
    → let (l', effects) = write_batch date position msg l in
      (l'.date ≡ date)
      × (l'.file ≡ some (file_name l'))
      × (written effects ≡ joined msg)
      × All (GoesTo (file_name l')) effects
unfolding write_batch
write_batch_lem date position msg l h =
    let dated = new_date date l in
    let (d1, d2, d3) = new_date_lem date l h in
    let ready = open_file dated.0 in
    let (o1, o2, o3) = open_file_lem dated.0 d1 in
    let rotated = rotate position ready.0 in
    let (r1, r2, r3) = rotate_lem position ready.0 o1 in
    let name = file_name rotated.0 in
    let (w1, w2) = write_all_lem name msg in
    let text = write_all rotated.0.file msg in
    let same : write_all (some name) msg ≡ text = ap (λ o. write_all o msg) (sym r1) in
    (
      r2 ∙ o2 ∙ d2,
      r1,
      written_quiet dated.1 (ready.1 ++ (rotated.1 ++ text)) d3
          ∙ written_quiet ready.1 (rotated.1 ++ text) o3
          ∙ written_quiet rotated.1 text r3
          ∙ ap written (sym same)
          ∙ w1,
      All-append (GoesTo name) dated.1 (ready.1 ++ (rotated.1 ++ text)) (quiet-All name dated.1 d3)
          (All-append (GoesTo name) ready.1 (rotated.1 ++ text) (quiet-All name ready.1 o3) (
            All-append (GoesTo name) rotated.1 text (quiet-All name rotated.1 r3)
              (subst (All (GoesTo name)) same w2))),
    )
