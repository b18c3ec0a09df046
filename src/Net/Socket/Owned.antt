-- ===== src/Net/Socket/Owned.antt =====
-- A socket owns one descriptor and closes it once; and what `init` and `accept` do without one.
use shero.Common.{
  ℕ, ◌≡◌, refl, ap, sym, subst, ◌∙◌, Bool, true, false, Option, none, some, List, [], ◌∷◌, ◌++◌,
  append_assoc, append-nil, if◌then◌else◌,
}
use shero.Buffer.{SysResult, failed, done}
use shero.Net.Socket.{
  Socket, Effect, opened, closed, reuse_addr, tcp_no_delay, new_socket, init_with, init, close,
  accept, connect_with, connect,
}
use shero.Tcp.Acceptor.{handed_over, handle_read}

-- The calls that change a socket.
pub data Op : Type 0 where
  op_init : SysResult ℕ → Op
  op_connect : SysResult ℕ → Op
  op_close : Op

abbrev pub apply : Op → Socket → Socket × List Effect
apply (op_init rt) s = let r = init rt s in (r.1, r.2)
apply (op_connect rt) s = ((connect rt s).1, [])
apply op_close s = close s

abbrev pub run : List Op → Socket → Socket × List Effect
run [] s = (s, [])
run (op ∷ ops) s = let (s1, e1) = apply op s in let (s2, e2) = run ops s1 in (s2, e1 ++ e2)

-- The descriptors that were opened and closed, in order, and the one that is held.
abbrev pub all_opened : List Effect → List ℕ
all_opened [] = []
all_opened (opened fd ∷ es) = fd ∷ all_opened es
all_opened (closed fd ∷ es) = all_opened es
all_opened (reuse_addr fd ∷ es) = all_opened es
all_opened (tcp_no_delay fd ∷ es) = all_opened es

abbrev pub all_closed : List Effect → List ℕ
all_closed [] = []
all_closed (opened fd ∷ es) = all_closed es
all_closed (closed fd ∷ es) = fd ∷ all_closed es
all_closed (reuse_addr fd ∷ es) = all_closed es
all_closed (tcp_no_delay fd ∷ es) = all_closed es

abbrev pub held : Option ℕ → List ℕ
held none = []
held (some fd) = fd ∷ []

all_opened-append : (es fs : List Effect) → all_opened (es ++ fs) ≡ all_opened es ++ all_opened fs
all_opened-append [] fs = refl
all_opened-append (opened fd ∷ es) fs = ap (λ t. fd ∷ t) (all_opened-append es fs)
all_opened-append (closed fd ∷ es) fs = all_opened-append es fs
all_opened-append (reuse_addr fd ∷ es) fs = all_opened-append es fs
all_opened-append (tcp_no_delay fd ∷ es) fs = all_opened-append es fs

all_closed-append : (es fs : List Effect) → all_closed (es ++ fs) ≡ all_closed es ++ all_closed fs
all_closed-append [] fs = refl
all_closed-append (opened fd ∷ es) fs = all_closed-append es fs
all_closed-append (closed fd ∷ es) fs = ap (λ t. fd ∷ t) (all_closed-append es fs)
all_closed-append (reuse_addr fd ∷ es) fs = all_closed-append es fs
all_closed-append (tcp_no_delay fd ∷ es) fs = all_closed-append es fs

-- A socket that was not created holds nothing.
abbrev pub IsHonest : Socket → Type 0
IsHonest s = held (if s.created then none else s.fd) ≡ []

-- One operation: what it opens is behind what is held, and what it closes is in front of what stays.
abbrev Balanced : Socket → Socket × List Effect → Type 0
Balanced s r = IsHonest r.0 × (held s.fd ++ all_opened r.1 ≡ all_closed r.1 ++ held r.0.fd)

init_with-Balanced :
    (rt : SysResult ℕ) (fd : Option ℕ) (is_stream connected : Bool)
    → held fd ≡ []
    → let s : Socket = record {
      fd = fd;
      is_stream = is_stream;
      connected = connected;
      created = false;
    } in
      Balanced s ((init_with rt s).1, (init_with rt s).2)
unfolding init_with
init_with-Balanced (failed e) fd is_stream connected h = (refl, ap (λ t. t ++ []) h)
init_with-Balanced (done n) fd true connected h = (refl, ap (λ t. t ++ (n ∷ [])) h)
init_with-Balanced (done n) fd false connected h = (refl, ap (λ t. t ++ (n ∷ [])) h)

close-Balanced :
    (fd : Option ℕ) (is_stream connected created : Bool)
    → let s : Socket = record {
      fd = fd;
      is_stream = is_stream;
      connected = connected;
      created = created;
    } in
      IsHonest s → Balanced s (close s)
unfolding close
close-Balanced none is_stream true true h = (refl, refl)
close-Balanced none is_stream true false h = (refl, refl)
close-Balanced none is_stream false true h = (refl, refl)
close-Balanced none is_stream false false h = (refl, refl)
close-Balanced (some fd) is_stream true true h = (refl, refl)
close-Balanced (some fd) is_stream true false h = (refl, refl)
close-Balanced (some fd) is_stream false true h = (refl, refl)
close-Balanced (some fd) is_stream false false h = (refl, refl)

init-Balanced :
    (rt : SysResult ℕ) (fd : Option ℕ) (is_stream connected created : Bool)
    → let s : Socket = record {
      fd = fd;
      is_stream = is_stream;
      connected = connected;
      created = created;
    } in
      IsHonest s → Balanced s ((init rt s).1, (init rt s).2)
unfolding init
init-Balanced rt fd is_stream connected true h = (refl, append-nil (held fd))
init-Balanced rt fd is_stream connected false h = init_with-Balanced rt fd is_stream connected h

connect-Balanced :
    (rt : SysResult ℕ) (fd : Option ℕ) (is_stream connected created : Bool)
    → let s : Socket = record {
      fd = fd;
      is_stream = is_stream;
      connected = connected;
      created = created;
    } in
      IsHonest s → Balanced s ((connect rt s).1, [])
unfolding connect connect_with
connect-Balanced rt none is_stream connected created h = (h, refl)
connect-Balanced (failed e) (some fd) is_stream connected created h = (h, refl)
connect-Balanced (done n) (some fd) is_stream connected created h = (h, refl)

apply-Balanced : (op : Op) (s : Socket) → IsHonest s → Balanced s (apply op s)
apply-Balanced (op_init rt) s h = init-Balanced rt s.fd s.is_stream s.connected s.created h
apply-Balanced (op_connect rt) s h = connect-Balanced rt s.fd s.is_stream s.connected s.created h
apply-Balanced op_close s h = close-Balanced s.fd s.is_stream s.connected s.created h

run-Balanced : (ops : List Op) (s : Socket) → IsHonest s → Balanced s (run ops s)
run-Balanced [] s h = (h, append-nil (held s.fd))
run-Balanced (op ∷ ops) s h =
    let (s1, e1) = apply op s in
    let (h1, b1) = apply-Balanced op s h in
    let r = run ops s1 in
    let (h2, b2) = run-Balanced ops s1 h1 in
    (
      h2,
      ap (λ t. held s.fd ++ t) (all_opened-append e1 r.1)
          ∙ sym (append_assoc (held s.fd) (all_opened e1) (all_opened r.1))
          ∙ ap (λ t. t ++ all_opened r.1) b1
          ∙ append_assoc (all_closed e1) (held s1.fd) (all_opened r.1)
          ∙ ap (λ t. all_closed e1 ++ t) b2
          ∙ sym (append_assoc (all_closed e1) (all_closed r.1) (held r.0.fd))
          ∙ ap (λ t. t ++ held r.0.fd) (sym (all_closed-append e1 r.1)),
    )

closes_all :
    (fd : Option ℕ) (is_stream connected created : Bool)
    → all_closed
        (close
          (record { fd = fd; is_stream = is_stream; connected = connected; created = created })).1
      ≡ held fd
unfolding close
closes_all none is_stream true created = refl
closes_all none is_stream false created = refl
closes_all (some fd) is_stream true created = refl
closes_all (some fd) is_stream false created = refl

-- Whatever is called on a new socket and whatever the system answers, the destructor leaves no
-- descriptor open: what was opened is what was closed, each once and in the same order.
pub run-owned :
    (ops : List Op) (is_stream : Bool)
    → all_opened (run ops (new_socket is_stream)).1
      ≡ all_closed
          ((run ops (new_socket is_stream)).1 ++ (close (run ops (new_socket is_stream)).0).1)
unfolding new_socket
run-owned ops is_stream =
    let s = run ops (new_socket is_stream) in
    let (h, b) = run-Balanced ops (new_socket is_stream) refl in
    b
    ∙ ap (λ t. all_closed s.1 ++ t)
        (sym (closes_all s.0.fd s.0.is_stream s.0.connected s.0.created))
    ∙ sym (all_closed-append s.1 (close s.0).1)

closed_socket :
    (rt again : SysResult ℕ) (fd : Option ℕ) (is_stream connected : Bool)
    → let t =
        (close
          (record { fd = fd; is_stream = is_stream; connected = connected; created = true })).0 in
      (init again t ≡ (true, t, [])) × (handle_read true (accept rt t) ≡ handed_over 0)
unfolding init close accept handle_read
closed_socket rt again none is_stream true = (refl, refl)
closed_socket rt again none is_stream false = (refl, refl)
closed_socket rt again (some fd) is_stream true = (refl, refl)
closed_socket rt again (some fd) is_stream false = (refl, refl)

-- After a `close` a socket that had been created cannot be used again: `init` reports success and opens
-- nothing, and `accept` gives descriptor 0, which the acceptor hands over as a new connection.
pub init-close :
    (rt again : SysResult ℕ) (s : Socket)
    → s.created ≡ true
    → (init again (close s).0 ≡ (true, (close s).0, []))
      × (handle_read true (accept rt (close s).0) ≡ handed_over 0)
init-close rt again s h =
    let at : Bool → Socket = λ b. record s { created = b } in
    subst
      (λ b.
        (init again (close (at b)).0 ≡ (true, (close (at b)).0, []))
        × (handle_read true (accept rt (close (at b)).0) ≡ handed_over 0))
      (sym h) (closed_socket rt again s.fd s.is_stream s.connected)
