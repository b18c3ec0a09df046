-- ===== src/Tcp/Client.antt =====
-- shero/net/tcp/TcpClient.cc: the one connection of a client. What a method calls is the list of its
-- effects in order.
use shero.Common.{
  ℕ, suc, Bool, true, false, ◌&&◌, Option, none, some, List, [], ◌∷◌, ◌++◌, if◌then◌else◌, take,
}
use shero.Common.Bytes.{Bytes, decimal}

pub record Connection : Type 0 where
  pub sockfd : ℕ
  pub name : Bytes

pub data Effect : Type 0 where
  connector_started : Effect
  connector_restarted : Effect
  conn_shutdown : Connection → Effect
  conn_established : Connection → Effect
  destroy_queued : Connection → Effect
  close_callback_replaced : Connection → Effect
  force_closed : Connection → Effect

pub record TcpClient : Type 0 where
  pub connect_wanted : Bool  -- `m_connect`
  pub retry : Bool
  pub next_conn_id : ℕ
  pub name_arg : Bytes
  pub conn : Option Connection

-- The constructor.
unfoldable pub new_client : Bool → Bytes → TcpClient
new_client retry name_arg = record {
  connect_wanted = false;
  retry = retry;
  next_conn_id = 1;
  name_arg = name_arg;
  conn = none;
}

-- `connect`.
unfoldable pub connect : TcpClient → TcpClient × List Effect
connect c = (record c { connect_wanted = true }, connector_started ∷ [])

abbrev pub shutdown_of : Option Connection → List Effect
shutdown_of none = []
shutdown_of (some conn) = conn_shutdown conn ∷ []

-- `disconnect`.
unfoldable pub disconnect : TcpClient → TcpClient × List Effect
disconnect c =
    if c.connect_wanted then (record c { connect_wanted = false }, shutdown_of c.conn) else (c, [])

-- `snprintf(buf, 32, ":%s#%d", …)` behind `m_nameArg`.
unfoldable pub client_conn_name : Bytes → Bytes → ℕ → Bytes
client_conn_name name_arg peer id = name_arg ++ take 31 (b':' ∷ (peer ++ (b'#' ∷ decimal id)))

-- `newConnection`; `peer` is the peer's address as text.
unfoldable pub new_connection : ℕ → Bytes → TcpClient → TcpClient × List Effect
unfolding client_conn_name
new_connection sockfd peer c =
    let conn : Connection = record {
      sockfd = sockfd;
      name = client_conn_name c.name_arg peer c.next_conn_id;
    } in
    (record c { next_conn_id = suc c.next_conn_id; conn = some conn }, conn_established conn ∷ [])

-- `removeConnection`.
unfoldable pub remove_connection : Connection → TcpClient → TcpClient × List Effect
remove_connection conn c = (
  record c { conn = none },
  destroy_queued conn ∷ (if c.retry && c.connect_wanted then connector_restarted ∷ [] else []),
)

-- The destructor; `unique` says that the client alone holds the connection.
unfoldable pub destroy : Bool → Option Connection → List Effect
destroy unique none = []
destroy unique (some conn) =
    close_callback_replaced conn ∷ (if unique then force_closed conn ∷ [] else [])
