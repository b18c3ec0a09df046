-- ===== src/Tcp/Connection/Session/InOrder.antt =====
-- What a session keeps: the order of the messages, and that the half-close comes behind them.
use shero.Common.{
  ◌≡◌, refl, sym, ap, ◌∙◌, Bool, true, false, ◌||◌, ◌⊎◌, List, [], ◌∷◌, ◌++◌, append-nil,
  append_assoc, inl, inr,
}
use shero.Common.Bytes.{Bytes}
use shero.Buffer.{to_string}
use shero.Tcp.Connection.{TcpConnection, Task, send_task, shutdown_task, Effect, is_disconnected}
use shero.Tcp.Connection.Stream.{written}
use shero.Tcp.Connection.Session.{Session, emit, queued_in}
use shero.Tcp.Connection.Session.Moves.{Moves, IsTended, is_past, asks, pending}

-- The bytes of what was taken, and who sent it.
abbrev pub texts : List (Bool × Bytes) → Bytes
texts [] = []
texts ((h, xs) ∷ m) = xs ++ texts m

abbrev pub from_loop : List (Bool × Bytes) → List Bytes
from_loop [] = []
from_loop ((true, xs) ∷ m) = xs ∷ from_loop m
from_loop ((false, xs) ∷ m) = from_loop m

abbrev pub from_others : List (Bool × Bytes) → List Bytes
from_others [] = []
from_others ((true, xs) ∷ m) = from_others m
from_others ((false, xs) ∷ m) = xs ∷ from_others m

pub texts-append :
    (m : List (Bool × Bytes)) (h : Bool) (xs : Bytes) → texts (m ++ (h, xs) ∷ []) ≡ texts m ++ xs
texts-append [] h xs = append-nil xs
texts-append ((g, ys) ∷ m) h xs =
    ap (λ t. ys ++ t) (texts-append m h xs) ∙ sym (append_assoc ys (texts m) xs)

pub from_loop-append : (m k : List (Bool × Bytes)) → from_loop (m ++ k) ≡ from_loop m ++ from_loop k
from_loop-append [] k = refl
from_loop-append ((true, ys) ∷ m) k = ap (λ t. ys ∷ t) (from_loop-append m k)
from_loop-append ((false, ys) ∷ m) k = from_loop-append m k

pub from_others-append :
    (m k : List (Bool × Bytes)) → from_others (m ++ k) ≡ from_others m ++ from_others k
from_others-append [] k = refl
from_others-append ((true, ys) ∷ m) k = from_others-append m k
from_others-append ((false, ys) ∷ m) k = ap (λ t. ys ∷ t) (from_others-append m k)

pub pending-append : (ts us : List Task) → pending (ts ++ us) ≡ pending ts ++ pending us
pending-append [] us = refl
pending-append (send_task msg ∷ ts) us = ap (λ t. msg ∷ t) (pending-append ts us)
pending-append (Task.write_complete ∷ ts) us = pending-append ts us
pending-append (shutdown_task ∷ ts) us = pending-append ts us
pending-append (Task.force_close_task ∷ ts) us = pending-append ts us

pub asks-append : (ts us : List Task) → asks (ts ++ us) ≡ (asks ts || asks us)
asks-append [] us = refl
asks-append (shutdown_task ∷ ts) us = refl
asks-append (send_task msg ∷ ts) us = asks-append ts us
asks-append (Task.write_complete ∷ ts) us = asks-append ts us
asks-append (Task.force_close_task ∷ ts) us = asks-append ts us

-- The invariant.
pub record IsInOrder (s : Session) : Type 0 where
  pub tended : IsTended s.conn
  pub stream : s.accepted ++ to_string s.conn.output ≡ texts s.taken
  pub here_kept : from_loop s.taken ≡ s.sent_here
  pub there_kept : from_others s.taken ++ (s.lost ++ pending s.tasks) ≡ s.sent_there
  pub open_keeps : s.shut ≡ false → is_disconnected s.conn.state ≡ false → s.lost ≡ []
  pub asked_past : asks s.tasks ≡ true → is_past s.conn.state ≡ true
  pub shut_past : s.shut ≡ true → is_past s.conn.state ≡ true
  pub shut_empty :
      s.shut ≡ true → is_disconnected s.conn.state ≡ false → to_string s.conn.output ≡ []

-- The fields that the connection, the queue and the kernel have a part in.
pub record IsKept (s : Session) : Type 0 where
  pub tended : IsTended s.conn
  pub asked_past : asks s.tasks ≡ true → is_past s.conn.state ≡ true
  pub shut_past : s.shut ≡ true → is_past s.conn.state ≡ true
  pub shut_empty :
      s.shut ≡ true → is_disconnected s.conn.state ≡ false → to_string s.conn.output ≡ []

pub or_true : (a b : Bool) → (a || b) ≡ true → (a ≡ true) ⊎ (b ≡ true)
or_true true b h = inl refl
or_true false b h = inr h

pub or_false : (a b : Bool) → (a || b) ≡ false → a ≡ false
or_false true b h = h
or_false false b h = refl

append_empty : (xs ys : Bytes) → xs ++ ys ≡ [] → ys ≡ []
append_empty [] ys h = h
append_empty (x ∷ xs) ys h = cc

module _ (xs : Bytes) (s : Session) (c : TcpConnection) (es : List Effect) (i : IsInOrder s)
    (m : Moves xs s.conn c es) where
  pub emit_stream : (emit s (c, es)).accepted ++ to_string c.output ≡ texts s.taken ++ xs
  emit_stream =
      append_assoc s.accepted (written es) (to_string c.output)
      ∙ ap (λ t. s.accepted ++ t) m.stream
      ∙ sym (append_assoc s.accepted (to_string s.conn.output) xs)
      ∙ ap (λ t. t ++ xs) i.stream

  pub emit-IsKept : (s.shut ≡ true → xs ≡ []) → IsKept (emit s (c, es))
  emit-IsKept nothing_new = record {
    tended = m.tended;
    asked_past = λ h. elim (or_true _ _ (sym (asks-append s.tasks (queued_in es)) ∙ h)) [
      | inl a ↦ m.past (i.asked_past a)
      | inr a ↦ m.asked a
    ];
    shut_past =
        λ h. elim (or_true s.shut _ h) [ inl a ↦ m.past (i.shut_past a) | inr a ↦ m.shut_past a ];
    shut_empty = λ h o. elim (or_true s.shut _ h) [
      | inl a ↦
          append_empty (written es) (to_string c.output)
            (m.stream ∙ ap (λ t. t ++ xs) (i.shut_empty a (m.gone o)) ∙ nothing_new a)
      | inr a ↦ m.shut_empty a o
    ];
  }

-- A move that takes nothing and queues no message.
pub emit-IsInOrder :
    (s : Session) (c : TcpConnection) (es : List Effect)
    → IsInOrder s
    → Moves [] s.conn c es
    → IsInOrder (emit s (c, es))
emit-IsInOrder s c es i m =
    let k = emit-IsKept [] s c es i m (λ a. refl) in
    record {
      tended = k.tended;
      stream = emit_stream [] s c es i m ∙ append-nil (texts s.taken);
      here_kept = i.here_kept;
      there_kept =
          ap (λ t. from_others s.taken ++ (s.lost ++ t))
            (pending-append s.tasks (queued_in es)
              ∙ ap (λ t. pending s.tasks ++ t) m.no_messages
              ∙ append-nil (pending s.tasks))
          ∙ i.there_kept;
      open_keeps = λ h o. i.open_keeps (or_false _ _ h) (m.gone o);
      asked_past = k.asked_past;
      shut_past = k.shut_past;
      shut_empty = k.shut_empty;
    }
