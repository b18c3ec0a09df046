-- ===== src/Http/Client/Construct.antt =====
-- What the request that a client builds is made of.
use shero.Common.{
  ℕ, ◌≡◌, refl, ◌∙◌, Bool, true, false, List, [], ◌∷◌, if◌then◌else◌, arith, Bool-cases, inl, inr,
  All,
}
use shero.Common.Bytes.{Bytes, codes}
use shero.Net.Uri.{Uri, get_path}
use shero.Http.Status.{HttpMethod}
use shero.Http.Headers.{Headers, same_key, insert, less}
use shero.Http.Message.{HttpRequest, set_request_header, new_request}
use shero.Http.Parser.Whole.{IsField}
use shero.Http.Parser.Printed.{spaced}
use shero.Http.Client.Request.{
  construct_connection, construct_headers, construct_host, construct_request,
}

-- The parts of a request but for its headers and flags.
pub record Line : Type 0 where
  pub method : HttpMethod
  pub path : Bytes
  pub query : Bytes
  pub fragment : Bytes
  pub version : ℕ
  pub body : Bytes

abbrev pub line_of : HttpRequest → Line
line_of r = record {
  method = r.method;
  path = r.path;
  query = r.query;
  fragment = r.fragment;
  version = r.version;
  body = r.body;
}

construct_connection-line :
    (v : Bytes) (r : HttpRequest) → line_of (construct_connection v r) ≡ line_of r
unfolding construct_connection set_request_header
construct_connection-line v r = elim (Bool-cases (same_key v (codes "Upgrade"))) [
  | inl a ↦ rw a refl
  | inr a ↦ elim (Bool-cases (same_key v (codes "keep-alive"))) [
    | inl b ↦ rw (a, b) refl
    | inr b ↦ rw (a, b) refl
  ]
]

header-line :
    (c : Bool) (k v : Bytes) (r : HttpRequest)
    → line_of (if c then construct_connection v r else set_request_header k v r) ≡ line_of r
unfolding set_request_header
header-line true k v r = construct_connection-line v r
header-line false k v r = refl

construct_headers-line :
    (m : List (Bytes × Bytes)) (host : Bool) (r : HttpRequest)
    → line_of (construct_headers m host r).1 ≡ line_of r
unfolding construct_headers
construct_headers-line [] host r = refl
construct_headers-line ((k, v) ∷ m) host r =
    construct_headers-line m _ _ ∙ header-line (same_key k (codes "Connection")) k v r

construct_host-line :
    (uri : Uri) (host : Bool) (r : HttpRequest) → line_of (construct_host uri host r) ≡ line_of r
unfolding construct_host set_request_header
construct_host-line uri true r = refl
construct_host-line uri false r = refl

-- The request has the method, the parts of the URI, version 1.1 and the body that were asked for.
pub construct_request-line :
    (method : HttpMethod) (uri : Uri) (headers : List (Bytes × Bytes)) (body : Bytes)
    → line_of (construct_request method uri headers body) ≡ record {
      method = method;
      path = get_path uri;
      query = uri.query;
      fragment = uri.fragment;
      version = 0x11;
      body = body;
    }
unfolding construct_request new_request
construct_request-line method uri headers body =
    construct_host-line uri _ _ ∙ construct_headers-line headers false _

-- A header that the parser can read.
abbrev pub IsHeader : Bytes × Bytes → Type 0
IsHeader e = IsField (spaced e)

insert-IsHeader :
    (k v : Bytes) (m : Headers) → IsHeader (k, v) → All IsHeader m → All IsHeader (insert k v m)
unfolding insert
insert-IsHeader k v [] h hs = (h, tt)
insert-IsHeader k v ((j, w) ∷ m) h hs = elim (Bool-cases (less k j)) [
  | inl a ↦ rw a (h, hs)
  | inr a ↦ elim (Bool-cases (less j k)) [
    | inl b ↦ rw (a, b) (hs.0, insert-IsHeader k v m h hs.1)
    | inr b ↦
        rw (a, b)
          (
            record {
              no_colon = hs.0.no_colon;
              no_return_name = hs.0.no_return_name;
              no_return_value = h.no_return_value;
            },
            hs.1,
          )
  ]
]

upgrade-IsHeader : IsHeader (codes "Connection", codes "Upgrade")
upgrade-IsHeader = record {
  no_colon = omega arith;
  no_return_name = omega arith;
  no_return_value = omega arith;
}

construct_connection-IsHeader :
    (v : Bytes) (r : HttpRequest)
    → All IsHeader r.headers
    → All IsHeader (construct_connection v r).headers
unfolding construct_connection set_request_header
construct_connection-IsHeader v r hs = elim (Bool-cases (same_key v (codes "Upgrade"))) [
  | inl a ↦
      rw a (insert-IsHeader (codes "Connection") (codes "Upgrade") r.headers upgrade-IsHeader hs)
  | inr a ↦ elim (Bool-cases (same_key v (codes "keep-alive"))) [
    | inl b ↦ rw (a, b) hs
    | inr b ↦ rw (a, b) hs
  ]
]

placed-IsHeader :
    (c : Bool) (k v : Bytes) (r : HttpRequest)
    → IsHeader (k, v)
    → All IsHeader r.headers
    → All IsHeader (if c then construct_connection v r else set_request_header k v r).headers
unfolding set_request_header
placed-IsHeader true k v r h hs = construct_connection-IsHeader v r hs
placed-IsHeader false k v r h hs = insert-IsHeader k v r.headers h hs

construct_headers-IsHeader :
    (m : List (Bytes × Bytes)) (host : Bool) (r : HttpRequest)
    → All IsHeader m
    → All IsHeader r.headers
    → All IsHeader (construct_headers m host r).1.headers
unfolding construct_headers
construct_headers-IsHeader [] host r ms hs = hs
construct_headers-IsHeader ((k, v) ∷ m) host r ms hs =
    construct_headers-IsHeader m _ _ ms.1
      (placed-IsHeader (same_key k (codes "Connection")) k v r ms.0 hs)

construct_host-IsHeader :
    (uri : Uri) (host : Bool) (r : HttpRequest)
    → IsHeader (codes "Host", uri.host)
    → All IsHeader r.headers
    → All IsHeader (construct_host uri host r).headers
unfolding construct_host set_request_header
construct_host-IsHeader uri true r h hs = hs
construct_host-IsHeader uri false r h hs = insert-IsHeader (codes "Host") uri.host r.headers h hs

-- Where the headers that were asked for and the host can be read by the parser, all of them can.
pub construct_request-IsHeader :
    (method : HttpMethod) (uri : Uri) (headers : List (Bytes × Bytes)) (body : Bytes)
    → IsHeader (codes "Host", uri.host)
    → All IsHeader headers
    → All IsHeader (construct_request method uri headers body).headers
unfolding construct_request new_request
construct_request-IsHeader method uri headers body h hs =
    construct_host-IsHeader uri _ _ h (construct_headers-IsHeader headers false _ hs tt)
