-- ===== src/Net/Socket.antt =====
-- shero/net/Socket.cc: a socket and the descriptor it owns. `fd` is `none` for -1. What a system call
-- gives is an argument; what is opened, closed or set is the list of a method's effects. The addresses
-- that are kept stand beside the socket.
pub mod Owned
use shero.Common.{
  ℕ, Bool, true, false, not, ◌&&◌, Option, none, some, List, [], ◌∷◌, ◌++◌, if◌then◌else◌,
}
use shero.Buffer.{SysResult, failed, done}

pub record Socket : Type 0 where
  pub fd : Option ℕ
  pub is_stream : Bool  -- `m_type == SOCK_STREAM`
  pub connected : Bool
  pub created : Bool

pub data Effect : Type 0 where
  opened : ℕ → Effect
  closed : ℕ → Effect
  reuse_addr : ℕ → Effect
  tcp_no_delay : ℕ → Effect

-- The constructor, before its `init`.
unfoldable pub new_socket : Bool → Socket
new_socket is_stream = record {
  fd = none;
  is_stream = is_stream;
  connected = false;
  created = false;
}

abbrev pub is_invalid : Option ℕ → Bool
is_invalid none = true
is_invalid (some fd) = false

-- Behind `socket`.
unfoldable pub init_with : SysResult ℕ → Socket → Bool × Socket × List Effect
init_with (failed e) s = (false, record s { fd = none }, [])
init_with (done fd) s = (
  true,
  record s { fd = some fd; created = true },
  opened fd ∷ reuse_addr fd ∷ (if s.is_stream then tcp_no_delay fd ∷ [] else []),
)

-- `init`.
unfoldable pub init : SysResult ℕ → Socket → Bool × Socket × List Effect
unfolding init_with
init rt s = if s.created then (true, s, []) else init_with rt s

abbrev pub close_fd : Option ℕ → List Effect
close_fd none = []
close_fd (some fd) = closed fd ∷ []

-- `close`, and the destructor.
unfoldable pub close : Socket → Socket × List Effect
close s =
    if not s.connected && is_invalid s.fd
    then (s, [])
    else (record s { connected = false; fd = none }, close_fd s.fd)

-- `bind` and `listen`: whether the call went well.
unfoldable pub call_on : SysResult ℕ → Socket → Bool
call_on (failed e) s = false
call_on (done n) s = not (is_invalid s.fd)

-- `accept`: on an invalid socket it returns `false`, which is 0.
unfoldable pub accept : SysResult ℕ → Socket → SysResult ℕ
accept rt s = if is_invalid s.fd then done 0 else rt

-- Behind `connect`.
unfoldable pub connect_with : SysResult ℕ → Socket → Bool × Socket
connect_with (failed e) s = (s.connected, s)
connect_with (done n) s = (true, record s { connected = true })

-- `connect`.
unfoldable pub connect : SysResult ℕ → Socket → Bool × Socket
unfolding connect_with
connect rt s = if is_invalid s.fd then (false, s) else connect_with rt s

-- `CreateTCP`, `CreateUDP`.
unfoldable pub create_tcp : Socket
unfolding new_socket
create_tcp = new_socket true

unfoldable pub create_udp : Socket
unfolding new_socket
create_udp = new_socket false

-- An address that is kept once it was asked for: of a call that fails, the zeros that it left.
abbrev pub cached_address : {A : Type 0} → A → SysResult A → Option A → A × Option A
cached_address zeros rt (some a) = (a, some a)
cached_address zeros (done a) none = (a, some a)
cached_address zeros (failed e) none = (zeros, some zeros)

-- `getLocalAddr`, with what `getsockname` gives, and `getRemoteAddr`, with what `getpeername` gives.
unfoldable pub get_local_addr : {A : Type 0} → A → SysResult A → Option A → A × Option A
get_local_addr zeros rt cached = cached_address zeros rt cached

unfoldable pub get_remote_addr : {A : Type 0} → A → SysResult A → Option A → A × Option A
get_remote_addr zeros rt cached = cached_address zeros rt cached
