-- ===== src/Net/Uri.antt =====
-- shero/net/Uri.h and the C++ part of shero/net/Uri.rl: a parsed URI. The grammar is Ragel's: what
-- `Create` makes of a text is a parameter of the code that calls it.
use shero.Common.{
  ℕ, Bool, true, false, not, Option, none, some, List, [], ◌∷◌, ◌++◌, ◌==◌, if◌then◌else◌,
}
use shero.Common.Bytes.{Bytes, codes, bytes_eq, decimal, marked}
use shero.Net.Address.{Address, set_port, lookup_address}

pub record Uri : Type 0 where
  pub scheme : Bytes
  pub userinfo : Bytes
  pub host : Bytes
  pub path : Bytes
  pub query : Bytes
  pub fragment : Bytes
  pub port : ℕ

-- `isDefaultPort`.
unfoldable pub is_default_port : Uri → Bool
is_default_port u =
    if u.port == 0
    then true
    else if bytes_eq u.scheme (codes "http")
    then u.port == 80
    else if bytes_eq u.scheme (codes "https")
    then u.port == 443
    else false

-- `getPort`.
unfoldable pub get_port : Uri → ℕ
get_port u =
    if not (u.port == 0)
    then u.port
    else if bytes_eq u.scheme (codes "http")
    then 80
    else if bytes_eq u.scheme (codes "https")
    then 443
    else u.port

-- `empty() ? default : text`.
abbrev pub or_text : Bytes → Bytes → Bytes
or_text default [] = default
or_text default (x ∷ xs) = x ∷ xs

-- `getPath`.
unfoldable pub get_path : Uri → Bytes
get_path u = or_text (codes "/") u.path

-- A part with its mark behind it, if there is one.
abbrev pub followed : Bytes → Bytes → Bytes
followed mark [] = []
followed mark (x ∷ xs) = (x ∷ xs) ++ mark

-- `dump`.
unfoldable pub dump_uri : Uri → Bytes
unfolding get_path is_default_port
dump_uri u =
    u.scheme
    ++ (codes "://"
        ++ (followed (codes "@") u.userinfo
            ++ (u.host
                ++ ((if is_default_port u then [] else b':' ∷ decimal u.port)
                    ++ (get_path u
                        ++ (marked (codes "?") u.query ++ marked (codes "#") u.fragment))))))

-- `createAddress`, with what `getaddrinfo` answers.
unfoldable pub create_address :
    (Bytes → Option Bytes → Option (List Address)) → Uri → Option Address
unfolding get_port
create_address getaddrinfo u = elim (lookup_address getaddrinfo u.host) [
  | none ↦ none
  | some a ↦ some (set_port (get_port u) a)
]
