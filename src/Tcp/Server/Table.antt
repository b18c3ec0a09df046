-- ===== src/Tcp/Server/Table.antt =====
-- The connections that shero/net/tcp/TcpServer.cc establishes and hands over to be destroyed, against its
-- table.
use shero.Common.{
  ℕ, ◌+◌, ◌≤◌, ◌≡◌, refl, subst, Bool, true, false, Option, none, some, List, [], ◌∷◌, ◌++◌, ◌==◌,
  arith, Bool-cases, inl, inr,
}
use mathlib.Core.Option.{some-injective, none-ne-some}
use shero.Common.Bytes.{Bytes}
use shero.Net.ThreadPool.{ThreadPool, get_next_loop}
use shero.Tcp.Server.{
  Connection, Effect, listen_in, established_in, removed_in, destroyed_in, TcpServer, new_server,
  find, assign, erase, established_conn, add_connection, connection_on, new_connection,
  remove_connection_in_loop,
}

abbrev one_if : Bool → ℕ
one_if true = 1
one_if false = 0

module _ {ℓ} {L : Type ℓ} where
  -- How often the connection numbered `j` is established and destroyed, and stands in the table.
  abbrev pub established : ℕ → List (Effect L) → ℕ
  established j [] = 0
  established j (listen_in l ∷ es) = established j es
  established j (established_in l c ∷ es) = one_if (c.id == j) + established j es
  established j (removed_in l c ∷ es) = established j es
  established j (destroyed_in l c ∷ es) = established j es

  abbrev pub destroyed : ℕ → List (Effect L) → ℕ
  destroyed j [] = 0
  destroyed j (listen_in l ∷ es) = destroyed j es
  destroyed j (established_in l c ∷ es) = destroyed j es
  destroyed j (removed_in l c ∷ es) = destroyed j es
  destroyed j (destroyed_in l c ∷ es) = one_if (c.id == j) + destroyed j es

  abbrev pub in_table : ℕ → List (ℕ × Connection L) → ℕ
  in_table j [] = 0
  in_table j ((k, c) ∷ m) = one_if (c.id == j) + in_table j m

  established-append :
      (j : ℕ) (es fs : List (Effect L))
      → established j (es ++ fs) ≡ established j es + established j fs
  established-append j [] fs = omega arith
  established-append j (listen_in l ∷ es) fs = established-append j es fs
  established-append j (established_in l c ∷ es) fs = omega (arith, established-append j es fs)
  established-append j (removed_in l c ∷ es) fs = established-append j es fs
  established-append j (destroyed_in l c ∷ es) fs = established-append j es fs

  destroyed-append :
      (j : ℕ) (es fs : List (Effect L)) → destroyed j (es ++ fs) ≡ destroyed j es + destroyed j fs
  destroyed-append j [] fs = omega arith
  destroyed-append j (listen_in l ∷ es) fs = destroyed-append j es fs
  destroyed-append j (established_in l c ∷ es) fs = destroyed-append j es fs
  destroyed-append j (removed_in l c ∷ es) fs = destroyed-append j es fs
  destroyed-append j (destroyed_in l c ∷ es) fs = omega (arith, destroyed-append j es fs)

  in_table-assign :
      (j fd : ℕ) (conn : Connection L) (m : List (ℕ × Connection L))
      → find fd m ≡ none
      → in_table j (assign fd conn m) ≡ in_table j m + one_if (conn.id == j)
  unfolding find assign
  in_table-assign j fd conn [] h = omega arith
  in_table-assign j fd conn ((k, c) ∷ m) h = elim (Bool-cases (k == fd)) [
    | inl p ↦ ground arith
    | inr p ↦ rw p (omega (arith, in_table-assign j fd conn m (rw p at h)))
  ]

  in_table-erase :
      (j fd : ℕ) (conn : Connection L) (m : List (ℕ × Connection L))
      → find fd m ≡ some conn
      → in_table j m ≡ in_table j (erase fd m) + one_if (conn.id == j)
  unfolding find erase
  in_table-erase j fd conn [] h = ground arith
  in_table-erase j fd conn ((k, c) ∷ m) h = elim (Bool-cases (k == fd)) [
    | inl p ↦ ground arith
    | inr p ↦ rw p (omega (arith, in_table-erase j fd conn m (rw p at h)))
  ]

  erase_none_lem :
      (j fd : ℕ) (m : List (ℕ × Connection L))
      → find fd m ≡ none
      → in_table j m ≡ in_table j (erase fd m)
  unfolding find erase
  erase_none_lem j fd [] h = refl
  erase_none_lem j fd ((k, c) ∷ m) h = elim (Bool-cases (k == fd)) [
    | inl p ↦ ground arith
    | inr p ↦ rw p (omega (arith, erase_none_lem j fd m (rw p at h)))
  ]

-- The server and what it has handed to the loops until now; and the connections whose removal was run
-- when they were no longer in the table.
pub record System {ℓ} (L : Type ℓ) : Type ℓ where
  pub server : TcpServer L
  pub log : List (Effect L)
  pub repeated : List (Connection L)

module _ {ℓ} {L : Type ℓ} where
  unfoldable pub initial : L → Bytes → Bytes → System L
  initial main_loop name_arg local_addr = record {
    server = new_server main_loop name_arg local_addr;
    log = [];
    repeated = [];
  }

  -- How often connection `j` was removed when it was gone.
  abbrev pub repeats : ℕ → List (Connection L) → ℕ
  repeats j [] = 0
  repeats j (c ∷ cs) = one_if (c.id == j) + repeats j cs

  -- A connection on a descriptor that is not in the table, as the system hands out no descriptor that
  -- is open; a removal, which runs again where the close callback was called again: what is queued
  -- keeps the connection and so its descriptor, which no other connection has then; and anything that leaves the table, the count
  -- and the loops alone, such as `start` and `setThreadNums`.
  pub data Step (s : System L) : System L → Type ℓ where
    accepted :
        (fd : ℕ) (server : TcpServer L) (effects : List (Effect L))
        → find fd s.server.connections ≡ none
        → new_connection fd s.server ≡ some (server, effects)
        → Step s (record { server = server; log = s.log ++ effects; repeated = s.repeated })
    removed :
        (conn : Connection L)
        → find conn.connfd s.server.connections ≡ some conn
        → Step s (record {
          server = (remove_connection_in_loop conn s.server).0;
          log = s.log ++ (remove_connection_in_loop conn s.server).1;
          repeated = s.repeated;
        })
    removed_again :
        (conn : Connection L)
        → find conn.connfd s.server.connections ≡ none
        → Step s (record {
          server = (remove_connection_in_loop conn s.server).0;
          log = s.log ++ (remove_connection_in_loop conn s.server).1;
          repeated = conn ∷ s.repeated;
        })
    set_pool :
        (pool : ThreadPool L) → Step s (record s { server = record s.server { pool = pool } })

  pub data Reach (start : System L) : System L → Type ℓ where
    here : Reach start start
    more : (s t : System L) → Reach start s → Step s t → Reach start t

  -- A number has been established at most once, not at all where it is still to be given; and of what
  -- has been established, what is not in the table has been destroyed, once and once more for each
  -- removal that came when it was gone.
  pub record IsAccounted (s : System L) : Type ℓ where
    pub once : (j : ℕ) → established j s.log ≤ 1
    pub fresh : (j : ℕ) → s.server.next_conn_id ≤ j → established j s.log ≡ 0
    pub accounts :
        (j : ℕ)
        → established j s.log + repeats j s.repeated
          ≡ in_table j s.server.connections + destroyed j s.log

  add_connection-IsAccounted :
      (s : System L) (fd : ℕ) (loop : L) (pool : ThreadPool L)
      → find fd s.server.connections ≡ none
      → IsAccounted s
      → IsAccounted (record {
        server = (add_connection fd loop pool s.server).0;
        log = s.log ++ (add_connection fd loop pool s.server).1;
        repeated = s.repeated;
      })
  unfolding add_connection
  add_connection-IsAccounted s fd loop pool h inv =
      let conn = (established_conn fd loop s.server) in
      record {
        once = λ j. ground (
          arith,
          inv.once j,
          inv.fresh j,
          established-append j s.log (established_in loop conn ∷ []),
        );
        fresh = λ j le.
            ground (arith, inv.fresh j, established-append j s.log (established_in loop conn ∷ []));
        accounts = λ j. omega (
          arith,
          inv.accounts j,
          established-append j s.log (established_in loop conn ∷ []),
          destroyed-append j s.log (established_in loop conn ∷ []),
          in_table-assign j fd conn s.server.connections h,
        );
      }

  connection_on-IsAccounted :
      (s : System L) (fd : ℕ) (server : TcpServer L) (effects : List (Effect L))
      (o : Option (L × ThreadPool L))
      → find fd s.server.connections ≡ none
      → connection_on fd s.server o ≡ some (server, effects)
      → IsAccounted s
      → IsAccounted (record { server = server; log = s.log ++ effects; repeated = s.repeated })
  unfolding connection_on
  connection_on-IsAccounted s fd server effects none h e inv =
      absurd (none-ne-some (server, effects) e)
  connection_on-IsAccounted s fd server effects (some (loop, pool)) h e inv =
      let made : add_connection fd loop pool s.server ≡ (server, effects) =
        some-injective (add_connection fd loop pool s.server) (server, effects) e in
      subst (λ r. IsAccounted (record { server = r.0; log = s.log ++ r.1; repeated = s.repeated }))
        made (add_connection-IsAccounted s fd loop pool h inv)

  new_connection-IsAccounted :
      (s : System L) (fd : ℕ) (server : TcpServer L) (effects : List (Effect L))
      → find fd s.server.connections ≡ none
      → new_connection fd s.server ≡ some (server, effects)
      → IsAccounted s
      → IsAccounted (record { server = server; log = s.log ++ effects; repeated = s.repeated })
  unfolding new_connection
  new_connection-IsAccounted s fd server effects h e inv =
      connection_on-IsAccounted s fd server effects (get_next_loop s.server.pool) h e inv

  remove-IsAccounted :
      (s : System L) (conn : Connection L)
      → find conn.connfd s.server.connections ≡ some conn
      → IsAccounted s
      → IsAccounted (record {
        server = (remove_connection_in_loop conn s.server).0;
        log = s.log ++ (remove_connection_in_loop conn s.server).1;
        repeated = s.repeated;
      })
  unfolding remove_connection_in_loop
  remove-IsAccounted s conn h inv = record {
    once = λ j.
        omega
          (arith, inv.once j, established-append j s.log (destroyed_in conn.sub_loop conn ∷ []));
    fresh = λ j le.
        omega (
          arith,
          inv.fresh j le,
          established-append j s.log (destroyed_in conn.sub_loop conn ∷ []),
        );
    accounts = λ j. omega (
      arith,
      inv.accounts j,
      established-append j s.log (destroyed_in conn.sub_loop conn ∷ []),
      destroyed-append j s.log (destroyed_in conn.sub_loop conn ∷ []),
      in_table-erase j conn.connfd conn s.server.connections h,
    );
  }

  remove_again-IsAccounted :
      (s : System L) (conn : Connection L)
      → find conn.connfd s.server.connections ≡ none
      → IsAccounted s
      → IsAccounted (record {
        server = (remove_connection_in_loop conn s.server).0;
        log = s.log ++ (remove_connection_in_loop conn s.server).1;
        repeated = conn ∷ s.repeated;
      })
  unfolding remove_connection_in_loop
  remove_again-IsAccounted s conn h inv = record {
    once = λ j.
        omega
          (arith, inv.once j, established-append j s.log (destroyed_in conn.sub_loop conn ∷ []));
    fresh = λ j le.
        omega (
          arith,
          inv.fresh j le,
          established-append j s.log (destroyed_in conn.sub_loop conn ∷ []),
        );
    accounts = λ j. omega (
      arith,
      inv.accounts j,
      established-append j s.log (destroyed_in conn.sub_loop conn ∷ []),
      destroyed-append j s.log (destroyed_in conn.sub_loop conn ∷ []),
      erase_none_lem j conn.connfd s.server.connections h,
    );
  }

  Step-IsAccounted : (s t : System L) → Step s t → IsAccounted s → IsAccounted t
  Step-IsAccounted s t (accepted fd server effects h e) inv =
      new_connection-IsAccounted s fd server effects h e inv
  Step-IsAccounted s t (removed conn h) inv = remove-IsAccounted s conn h inv
  Step-IsAccounted s t (removed_again conn h) inv = remove_again-IsAccounted s conn h inv
  Step-IsAccounted s t (set_pool pool) inv = record {
    once = inv.once;
    fresh = inv.fresh;
    accounts = inv.accounts;
  }

  -- In every state that the server can reach, each connection has been established at most once, under
  -- a number that no other had. One that is established is in the table, or it has been handed over to
  -- be destroyed, once, and once more for each removal that was run when it was gone.
  pub Reach-IsAccounted :
      (main_loop : L) (name_arg local_addr : Bytes) (t : System L)
      → Reach (initial main_loop name_arg local_addr) t
      → IsAccounted t
  unfolding initial new_server
  Reach-IsAccounted main_loop name_arg local_addr t here = record {
    once = λ j. omega arith;
    fresh = λ j le. refl;
    accounts = λ j. omega arith;
  }
  Reach-IsAccounted main_loop name_arg local_addr t (more s _ r step) =
      Step-IsAccounted s t step (Reach-IsAccounted main_loop name_arg local_addr s r)
