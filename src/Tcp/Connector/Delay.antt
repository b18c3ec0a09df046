-- ===== src/Tcp/Connector/Delay.antt =====
-- The delays between the attempts, and what becomes of every socket.
use shero.Common.{
  ℕ, zero, suc, ◌*◌, ◌^◌, min, ◌≡◌, refl, true, false, ◌&&◌, List, [], ◌∷◌, ◌==◌, arith, subst,
  Bool-cases, inl, inr,
}
use native.Mathlib.Nat.{pow-suc}
use shero.Net.Channel.{del_all_listen_events}
use shero.Tcp.Connector.{
  TcpConnector, Effect, closed, timer_added, new_connection, init_retry_delay_ms,
  max_retry_delay_ms, retry, start_in_loop, under_way, worth_retrying, is_disconnected,
  is_connecting, handle_write, handle_error, remove_and_reset_channel,
}

-- `n` attempts that end in an error worth retrying, one after the other, each on its own socket.
abbrev pub refused : ℕ → (ℕ → ℕ) → ℕ → TcpConnector → TcpConnector
refused errno socket zero c = c
refused errno socket (suc n) c = (start_in_loop (socket n) errno (refused errno socket n c)).0

-- A connector that may retry and is to connect, with this delay.
pub record IsRetrying (delay : ℕ) (c : TcpConnector) : Type 0 where
  pub may : c.can_retry ≡ true
  pub wanted : c.connect_wanted ≡ true
  pub idle : is_disconnected c.state ≡ true
  pub delay_ms : c.retry_delay_ms ≡ delay

retry_step :
    (sockfd errno delay : ℕ) (c : TcpConnector)
    → under_way errno ≡ false
    → worth_retrying errno ≡ true
    → IsRetrying delay c
    → IsRetrying (min (delay * 2) max_retry_delay_ms) (start_in_loop sockfd errno c).0
      × ((start_in_loop sockfd errno c).1 ≡ closed sockfd ∷ timer_added delay ∷ [])
unfolding start_in_loop
retry_step sockfd errno delay c u w r =
    rw (r.idle, r.wanted, u, w, r.may, r.delay_ms)
      (record { may = refl; wanted = refl; idle = refl; delay_ms = refl }, refl)

doubled : (n : ℕ) → min (min (500 * 2 ^ n) 30000 * 2) 30000 ≡ min (500 * 2 ^ suc n) 30000
doubled n = omega (arith, pow-suc 2 n)

start_delay : 500 ≡ min (500 * 2 ^ 0) 30000
start_delay = refl

-- A connector that may retry and was told to connect, after `n` attempts that all ended in an errno
-- worth retrying: the next such attempt closes its socket and waits 500 ms doubled `n` times, or
-- 30 s where that is less, and the connector is ready for another.
pub refused-IsRetrying :
    (errno : ℕ) (socket : ℕ → ℕ) (n : ℕ) (c : TcpConnector)
    → under_way errno ≡ false
    → worth_retrying errno ≡ true
    → IsRetrying init_retry_delay_ms c
    → IsRetrying (min (init_retry_delay_ms * 2 ^ n) max_retry_delay_ms) (refused errno socket n c)
      × ((start_in_loop (socket n) errno (refused errno socket n c)).1
          ≡ closed (socket n)
            ∷ timer_added (min (init_retry_delay_ms * 2 ^ n) max_retry_delay_ms)
            ∷ [])
refused-IsRetrying errno socket n c u w r =
    let ready = delays n in
    (ready, (retry_step (socket n) errno _ (refused errno socket n c) u w ready).1)
  where
    delays : (n : ℕ) → IsRetrying (min (500 * 2 ^ n) 30000) (refused errno socket n c)
    delays zero = r
    delays (suc n) =
        subst (λ d. IsRetrying d (refused errno socket (suc n) c)) (doubled n)
          (retry_step (socket n) errno _ (refused errno socket n c) u w (delays n)).0

-- What became of sockets: closed, or handed to the new connection.
abbrev pub settled : List Effect → List ℕ
settled [] = []
settled (closed fd ∷ es) = fd ∷ settled es
settled (new_connection fd ∷ es) = fd ∷ settled es
settled (_ ∷ es) = settled es

settled-retry : (fd : ℕ) (c : TcpConnector) → settled (retry fd c).1 ≡ fd ∷ []
unfolding retry
settled-retry fd c = elim (Bool-cases (c.can_retry && c.connect_wanted)) [
  | inl e ↦ rw e refl
  | inr e ↦ rw e refl
]

-- While connecting, both event handlers settle the socket of the channel exactly once, whatever the
-- pending error: it is handed to the new connection or closed.
pub handle_write-settled :
    (err : ℕ) (c : TcpConnector)
    → is_connecting c.state ≡ true
    → (settled (handle_write err c).1 ≡ c.channel.fd ∷ [])
      × (settled (handle_error c).1 ≡ c.channel.fd ∷ [])
unfolding handle_write handle_error remove_and_reset_channel del_all_listen_events
handle_write-settled err c st = (
  write_case,
  rw st (settled-retry c.channel.fd (record c { channel = del_all_listen_events c.channel })),
)
  where
    write_case : settled (handle_write err c).1 ≡ c.channel.fd ∷ []
    write_case = elim (Bool-cases (err == 0)) [
      | inl e ↦ elim (Bool-cases c.connect_wanted) [
        | inl w ↦ rw (st, e, w) refl
        | inr w ↦ rw (st, e, w) refl
      ]
      | inr e ↦
          rw (st, e)
            (settled-retry c.channel.fd (record c { channel = del_all_listen_events c.channel }))
    ]
