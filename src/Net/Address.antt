-- ===== src/Net/Address.antt =====
-- `Address::LookupAddressByHost` of shero/net/Address.cc: the node and the service that a host is split
-- into before `getaddrinfo` is asked, and the first of its answers; and the address with its port.
pub mod Split
use shero.Common.{
  ℕ, ◌<◌, ◌^◌, ◌≡◌, ◌++◌, Bool, true, false, Option, none, some, List, [], ◌∷◌, ◌==◌, if◌then◌else◌,
}
use shero.Common.Bytes.{Bytes, split_at, decimal}
use shero.Buffer.Fixed.{byteswap, byteswap-of_le-be_bytes}

-- What follows the closing bracket: a service behind ':'.
unfoldable pub bracket_service : Bytes → Option Bytes
bracket_service [] = none
bracket_service (c ∷ rest) = if c == b':' then some rest else none

unfoldable pub between : Option (Bytes × Bytes) → Option (Bytes × Option Bytes)
unfolding bracket_service
between none = none
between (some (node, rest)) = some (node, bracket_service rest)

-- The check for an IPv6 address in brackets.
unfoldable pub bracketed : Bytes → Option (Bytes × Option Bytes)
unfolding between
bracketed [] = none
bracketed (c ∷ host) = if c == b'[' then between (split_at b']' host) else none

abbrev pub found : Option (Bytes × Bytes) → Bool
found none = false
found (some r) = true

-- `if(node.empty()) node = host`.
abbrev pub node_or : Bytes → Bytes → Bytes
node_or [] host = host
node_or (c ∷ node) host = c ∷ node

-- The check for a node and a service, on what `memchr` finds. With a second ':' the service still
-- points at the first one, and the node is the whole host.
unfoldable pub plain : Option (Bytes × Bytes) → Bytes → Bytes × Option Bytes
plain none host = (host, none)
plain (some (node, service)) host =
    if found (split_at b':' service)
    then (host, some (b':' ∷ service))
    else (node_or node host, some service)

unfoldable pub choose : Option (Bytes × Option Bytes) → Bytes → Bytes × Option Bytes
unfolding plain
choose none host = plain (split_at b':' host) host
choose (some ([], service)) host = plain (split_at b':' host) host
choose (some (c ∷ node, service)) host = (c ∷ node, service)

-- The node and the service.
unfoldable pub split_host : Bytes → Bytes × Option Bytes
unfolding bracketed choose
split_host host = choose (bracketed host) host

-- `LookupAddressByHost`, on what `getaddrinfo` answers: the first address, or `nullptr`.
unfoldable pub lookup_address :
    {A : Type 0} → (Bytes → Option Bytes → Option (List A)) → Bytes → Option A
lookup_address getaddrinfo host =
    let (node, service) = split_host host in
    elim (getaddrinfo node service) [ none ↦ none | some [] ↦ none | some (a ∷ rest) ↦ some a ]

-- An `Address`: its `sockaddr_in`, the numbers as their bytes read on a little-endian machine.
pub record Address : Type 0 where
  pub sin_addr : ℕ
  pub sin_port : ℕ

-- `getPort`, `setPort`: `byteswapOnLittleEndian` of 16 bits.
unfoldable pub get_port : Address → ℕ
get_port a = byteswap 2 a.sin_port

unfoldable pub set_port : ℕ → Address → Address
set_port v a = record a { sin_port = byteswap 2 v }

-- `Address(port, address)`, with `inet_addr`.
unfoldable pub new_address : (Bytes → ℕ) → ℕ → Bytes → Address
new_address inet_addr port address = record {
  sin_addr = inet_addr address;
  sin_port = byteswap 2 port;
}

-- `toIpPort`, with the text that `inet_ntop` makes of the address.
unfoldable pub to_ip_port : (ℕ → Bytes) → Address → Bytes
unfolding get_port
to_ip_port inet_ntop a = inet_ntop a.sin_addr ++ (b':' ∷ decimal (get_port a))

-- A port that was set is the one that is read.
pub get_port-set_port : (v : ℕ) (a : Address) → v < 2 ^ 16 → get_port (set_port v a) ≡ v
unfolding get_port set_port byteswap
get_port-set_port v a h = byteswap-of_le-be_bytes 2 v h
