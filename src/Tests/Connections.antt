-- ===== src/Tests/Connections.antt =====
-- Channels and connections: concrete runs.
use shero.Common.{
  ◌++◌, ℕ, ◌+◌, ◌*◌, ◌^◌, min, ◌≡◌, ◌≢◌, refl, sym, ap, ◌∙◌, true, false, not, ◌==◌, List, [], ◌∷◌,
  some, arith, length,
}
use shero.Common.Bytes.{Bytes, codes}
use shero.Buffer.{new, SysResult, failed, done, readable_bytes, to_string}
use shero.Buffer.Invariant.{length-to_string}
use shero.Net.Channel.{Channel, add}
use shero.Net.ThreadPool.RoundRobin.{picks, pool_at, picks-pool_at}
use shero.Tcp.Connection.{TcpConnection, connected, disconnected, handle_write}
use shero.Tcp.Connection.Stream.{IsFlushing, both, written}
use shero.Tcp.Connection.Errors.{handle_write_failed}
use shero.Tcp.Connector.{
  TcpConnector, disconnected as waiting, connecting as on_the_way, closed, timer_added,
  start_in_loop, handle_write as connector_handle_write, handle_error,
}
use shero.Tcp.Connector.Delay.{
  IsRetrying, refused, refused-IsRetrying, settled, handle_write-settled,
}
use shero.Net.Socket.{new_socket, close}
use shero.Net.Socket.Owned.{
  Op, op_init, op_connect, op_close, run, all_opened, all_closed, run-owned,
}
use shero.Net.Address.{split_host}
use shero.Net.Address.Split.{with_service, split_host-Written}
use shero.Tests.{holding, holding-IsValid, holding-to_string}

abbrev reader : Channel
reader = record { fd = 7; event = 3; revents = 0; status = add }

-- A connection with nothing to write.
abbrev idle : TcpConnection
idle = record {
  state = connected;
  channel = reader;
  input = new 16;
  output = new 16;
  write_complete_set = true;
}

-- A kernel that takes two bytes.
abbrev two : Bytes → SysResult ℕ
two xs = done 2

-- A connection with five bytes to write.
abbrev busy : TcpConnection
busy = record idle { channel = record reader { event = 7 }; output = holding (codes "hello") }

five_left : readable_bytes (holding (codes "hello")) ≡ 5
five_left =
    sym (length-to_string (holding-IsValid (codes "hello")))
    ∙ ap length (holding-to_string (codes "hello"))

busy-IsFlushing : IsFlushing busy
busy-IsFlushing = record {
  valid = holding-IsValid (codes "hello");
  mask = both;
  listens = ap (λ (n : ℕ). not (n == 0)) (sym five_left);
}

-- A kernel that fails with EAGAIN.
abbrev again : Bytes → SysResult ℕ
again xs = failed 11

handle_write_failed_example :
    (written (handle_write again busy).1 ≡ []) × (to_string (handle_write again busy).0.output ≡ [])
handle_write_failed_example =
    handle_write_failed again 11 busy busy-IsFlushing refl (omega (arith, five_left)) refl

-- Closed twice.
abbrev gone : TcpConnection
gone = record idle { state = disconnected }

abbrev retrying : TcpConnector
retrying = record {
  retry_delay_ms = 500;
  can_retry = true;
  connect_wanted = true;
  channel = reader;
  state = waiting;
}

abbrev socket_at : ℕ → ℕ
socket_at n = 20 + n

-- Refused seven times.
refused-IsRetrying_example :
    IsRetrying (min (500 * 2 ^ 7) 30000) (refused 111 socket_at 7 retrying)
    × ((start_in_loop (socket_at 7) 111 (refused 111 socket_at 7 retrying)).1
        ≡ closed (socket_at 7) ∷ timer_added (min (500 * 2 ^ 7) 30000) ∷ [])
refused-IsRetrying_example =
    refused-IsRetrying 111 socket_at 7 retrying refl refl
      (record { may = refl; wanted = refl; idle = refl; delay_ms = refl })

handle_write-settled_example :
    (settled (connector_handle_write 111 (record retrying { state = on_the_way })).1 ≡ 7 ∷ [])
    × (settled (handle_error (record retrying { state = on_the_way })).1 ≡ 7 ∷ [])
handle_write-settled_example =
    handle_write-settled 111 (record retrying { state = on_the_way }) refl

-- Three loops.
abbrev three : List ℕ
three = 11 ∷ 12 ∷ 13 ∷ []

abbrev base_loop : ℕ
base_loop = 10

picks-pool_at_example :
    picks 3 (pool_at three base_loop 3 0) ≡ some (three, pool_at three base_loop 3 0)
picks-pool_at_example = picks-pool_at three base_loop 3 (omega arith)

abbrev two_lives : List Op
two_lives =
    op_init (failed 24) ∷ op_init (done 7) ∷ op_connect (done 0) ∷ op_close ∷ op_init (done 8) ∷ []

run-owned_example :
    all_opened (run two_lives (new_socket true)).1
    ≡ all_closed
        ((run two_lives (new_socket true)).1 ++ (close (run two_lives (new_socket true)).0).1)
run-owned_example = run-owned two_lives true

is_no_colon : (c : ℕ) → (c == b':') ≡ false → c ≢ b':'
is_no_colon c h = λ e. ground arith

split_host-Written_example :
    split_host (codes "h" ++ (b':' ∷ codes "80")) ≡ (codes "h", some (codes "80"))
split_host-Written_example =
    split_host-Written (codes "h" ++ (b':' ∷ codes "80")) (codes "h") (some (codes "80")) (
      with_service b'h' [] (codes "80") (λ e. omega arith) (is_no_colon b'h' refl, tt)
        (is_no_colon b'8' refl, (is_no_colon b'0' refl, tt)))
