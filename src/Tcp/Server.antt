-- ===== src/Tcp/Server.antt =====
-- shero/net/tcp/TcpServer.cc: the table of connections. `L` stands for a pointer to an EventLoop. What
-- a method hands to a loop is the list of its effects. The callbacks that `newConnection` passes on
-- are left out, but for the one that removes the connection.
pub mod Table
pub mod Names
use shero.Common.{
  ℕ, zero, suc, ◌+◌, Bool, true, false, Option, none, some, List, [], ◌∷◌, ◌++◌, ◌==◌,
  if◌then◌else◌, take,
}
use shero.Common.Bytes.{Bytes, decimal}
use shero.Net.ThreadPool.{ThreadPool, new_pool, get_next_loop}
use shero.Net.ThreadPool as Pool
use shero.Tcp.Acceptor.{TcpAcceptor, new_acceptor}

-- What the server keeps of a `TcpConnection`.
pub record Connection {ℓ} (L : Type ℓ) : Type ℓ where
  pub id : ℕ  -- the value of `m_nextConnId` in its name
  pub connfd : ℕ
  pub sub_loop : L
  pub name : Bytes

pub data Effect {ℓ} (L : Type ℓ) : Type ℓ where
  listen_in : L → Effect L
  established_in : L → Connection L → Effect L
  removed_in : L → Connection L → Effect L
  destroyed_in : L → Connection L → Effect L

pub record TcpServer {ℓ} (L : Type ℓ) : Type ℓ where
  pub start_count : ℕ
  pub next_conn_id : ℕ
  pub name_arg : Bytes
  pub local_addr : Bytes  -- `getLocalAddr().toIpPort()`
  pub listening : Bool
  pub pool : ThreadPool L
  pub connections : List (ℕ × Connection L)

-- `snprintf(buf, 64, "%s#%d", …)` behind `m_nameArg`.
unfoldable pub conn_name : Bytes → Bytes → ℕ → Bytes
conn_name name_arg local_addr id = name_arg ++ take 63 (local_addr ++ (b'#' ∷ decimal id))

module _ {ℓ} {L : Type ℓ} where
  -- The constructor.
  unfoldable pub new_server : L → Bytes → Bytes → TcpServer L
  new_server main_loop name_arg local_addr = record {
    start_count = 0;
    next_conn_id = 1;
    name_arg = name_arg;
    local_addr = local_addr;
    listening = false;
    pool = new_pool main_loop;
    connections = [];
  }

  -- `start`; `none` where an assert fails. `thread_loop i` is the loop that thread `i` starts.
  unfoldable pub start : (ℕ → L) → TcpServer L → Option (TcpServer L × List (Effect L))
  start thread_loop s =
      let again = record s { start_count = suc s.start_count } in
      if s.start_count == 0
      then elim (Pool.start thread_loop s.pool) [
        | none ↦ none
        | some (pool, called) ↦
            if s.listening
            then none
            else some (record again { pool = pool }, listen_in pool.base_loop ∷ [])
      ]
      else some (again, [])

  -- `m_connections.find(fd)`.
  unfoldable pub find : ℕ → List (ℕ × Connection L) → Option (Connection L)
  find fd [] = none
  find fd ((k, c) ∷ m) = if k == fd then some c else find fd m

  -- `m_connections[fd] = conn`.
  unfoldable pub assign : ℕ → Connection L → List (ℕ × Connection L) → List (ℕ × Connection L)
  assign fd conn [] = (fd, conn) ∷ []
  assign fd conn ((k, c) ∷ m) = if k == fd then (k, conn) ∷ m else (k, c) ∷ assign fd conn m

  -- `m_connections.erase(fd)`.
  unfoldable pub erase : ℕ → List (ℕ × Connection L) → List (ℕ × Connection L)
  erase fd [] = []
  erase fd ((k, c) ∷ m) = if k == fd then m else (k, c) ∷ erase fd m

  -- The connection that `newConnection` makes.
  abbrev pub established_conn : ℕ → L → TcpServer L → Connection L
  established_conn connfd sub_loop s = record {
    id = s.next_conn_id;
    connfd = connfd;
    sub_loop = sub_loop;
    name = conn_name s.name_arg s.local_addr s.next_conn_id;
  }

  -- `newConnection` on the loop that was picked.
  unfoldable pub add_connection : ℕ → L → ThreadPool L → TcpServer L → TcpServer L × List (Effect L)
  unfolding assign
  add_connection connfd sub_loop pool s =
      let conn = established_conn connfd sub_loop s in
      (
        record s {
          next_conn_id = suc s.next_conn_id;
          pool = pool;
          connections = assign connfd conn s.connections;
        },
        established_in sub_loop conn ∷ [],
      )

  unfoldable pub connection_on :
      ℕ → TcpServer L → Option (L × ThreadPool L) → Option (TcpServer L × List (Effect L))
  unfolding add_connection
  connection_on connfd s none = none
  connection_on connfd s (some (sub_loop, pool)) = some (add_connection connfd sub_loop pool s)

  -- `newConnection`; `none` where the pool's assert fails.
  unfoldable pub new_connection : ℕ → TcpServer L → Option (TcpServer L × List (Effect L))
  unfolding connection_on
  new_connection connfd s = connection_on connfd s (get_next_loop s.pool)

  -- `removeConnection`.
  unfoldable pub remove_connection : Connection L → TcpServer L → List (Effect L)
  remove_connection conn s = removed_in s.pool.base_loop conn ∷ []

  -- `removeConnectionInLoop`.
  unfoldable pub remove_connection_in_loop :
      Connection L → TcpServer L → TcpServer L × List (Effect L)
  unfolding erase
  remove_connection_in_loop conn s = (
    record s { connections = erase conn.connfd s.connections },
    destroyed_in conn.sub_loop conn ∷ [],
  )

  -- The destructor.
  unfoldable pub destroy_all : List (ℕ × Connection L) → List (Effect L)
  destroy_all [] = []
  destroy_all ((k, c) ∷ m) = destroyed_in c.sub_loop c ∷ destroy_all m
