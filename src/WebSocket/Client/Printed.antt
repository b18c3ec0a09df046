-- ===== src/WebSocket/Client/Printed.antt =====
-- What the server's parser reads in the text of a handshake request, which shero/net/websocket/WSClient.cc
-- sends.
use shero.Common.{◌≡◌, ◌≢◌, refl, ap, Option, none, some, ◌∙◌, List, [], ◌∷◌, All, arith}
use shero.Common.Bytes.{Bytes, codes, split_at, bytes_eq, to_lower, c_str}
use shero.Http.Status.{get}
use shero.Http.Headers.{Headers, fold_key, lex_lt, less, same_key, find, insert, get_header}
use shero.Http.Message.{
  HttpRequest, default_request, request_header, set_request_header, new_request,
}
use shero.Http.Parser.{set_target, skip_spaces, cut_spaces, is_space}
use shero.Http.Parser.Whole.{Field, IsField, store_fields}
use shero.Http.Parser.Printed.{target_of, printed_fields, spaced}
use shero.Http.Client.Construct.{IsHeader, construct_request-IsHeader}
use shero.Net.Uri.{Uri}
use shero.Http.Client.Request.{
  construct_connection, construct_headers, construct_host, construct_request,
}
use shero.WebSocket.Client.{handshake_headers, handshake_request}

-- A header's value as the parser of requests stores it.
abbrev pub stored : Bytes → Bytes
stored v = cut_spaces (skip_spaces (32 ∷ v))

-- The lines of the printed request.
abbrev pub known_fields : Bytes → Bytes → List Field
known_fields host key =
    spaced (codes "Connection", codes "Upgrade")
    ∷ spaced (codes "Host", host)
    ∷ spaced (codes "Sec-WebSocket-Key", key)
    ∷ spaced (codes "Sec-WebSocket-Version", codes "13")
    ∷ spaced (codes "Upgrade", codes "websocket")
    ∷ []

printed_fields-handshake_request :
    (uri : Uri) (key : Bytes)
    → printed_fields (handshake_request uri key) ≡ known_fields uri.host key
unfolding handshake_request construct_request construct_headers construct_host construct_connection
    set_request_header new_request insert less lex_lt fold_key same_key bytes_eq c_str to_lower
printed_fields-handshake_request uri key = refl

abbrev pub store_in : List Field → Headers → Headers
store_in [] m = m
store_in (f ∷ fs) m = store_in fs (insert f.name (cut_spaces (skip_spaces f.value)) m)

store_fields-headers :
    (fs : List Field) (r : HttpRequest) → (store_fields fs r).headers ≡ store_in fs r.headers
unfolding set_request_header
store_fields-headers [] r = refl
store_fields-headers (f ∷ fs) r = store_fields-headers fs _

pub store_fields-path : (fs : List Field) (r : HttpRequest) → (store_fields fs r).path ≡ r.path
unfolding set_request_header
store_fields-path [] r = refl
store_fields-path (f ∷ fs) r = store_fields-path fs _

pub store_fields-version :
    (fs : List Field) (r : HttpRequest) → (store_fields fs r).version ≡ r.version
unfolding set_request_header
store_fields-version [] r = refl
store_fields-version (f ∷ fs) r = store_fields-version fs _

pub no_body : (uri : Uri) (key : Bytes) → (handshake_request uri key).body ≡ []
unfolding handshake_request construct_request construct_headers construct_host construct_connection
    set_request_header new_request fold_key same_key bytes_eq c_str to_lower
no_body uri key = refl

pub version_eleven : (uri : Uri) (key : Bytes) → (handshake_request uri key).version ≡ 0x11
unfolding handshake_request construct_request construct_headers construct_host construct_connection
    set_request_header new_request fold_key same_key bytes_eq c_str to_lower
version_eleven uri key = refl

split_target-headers :
    (o : Option (Bytes × Bytes)) (t : Bytes) (r : HttpRequest)
    → let q : HttpRequest = elim o [
      | none ↦ record r { path = t }
      | some (before, after) ↦ record r { path = before; query = b'?' ∷ after }
    ] in
      q.headers ≡ r.headers
split_target-headers none t r = refl
split_target-headers (some (before, after)) t r = refl

set_target-headers : (t : Bytes) (r : HttpRequest) → (set_target t r).headers ≡ r.headers
unfolding set_target
set_target-headers t r = split_target-headers (split_at b'?' t) t r

-- The request as the server reads it.
abbrev pub read_request : HttpRequest → HttpRequest
read_request r =
    store_fields (printed_fields r)
      (record (set_target (target_of r) default_request) { version = r.version })

pub read_request-headers :
    (uri : Uri) (key : Bytes)
    → (read_request (handshake_request uri key)).headers ≡ store_in (known_fields uri.host key) []
unfolding new_request
read_request-headers uri key =
    store_fields-headers (printed_fields (handshake_request uri key)) _
    ∙ ap (store_in (printed_fields (handshake_request uri key)))
        (set_target-headers _ default_request)
    ∙ ap (λ fs. store_in fs []) (printed_fields-handshake_request uri key)

pub known_upgrade :
    (host key : Bytes)
    → get_header (codes "Upgrade") [] (store_in (known_fields host key) []) ≡ codes "websocket"
unfolding get_header find insert less lex_lt fold_key same_key bytes_eq c_str to_lower skip_spaces
    cut_spaces is_space
known_upgrade host key = refl

pub known_connection :
    (host key : Bytes)
    → get_header (codes "Connection") [] (store_in (known_fields host key) []) ≡ codes "Upgrade"
unfolding get_header find insert less lex_lt fold_key same_key bytes_eq c_str to_lower skip_spaces
    cut_spaces is_space
known_connection host key = refl

pub known_key :
    (host key : Bytes)
    → get_header (codes "Sec-WebSocket-Key") [] (store_in (known_fields host key) []) ≡ stored key
unfolding get_header find insert less lex_lt fold_key same_key bytes_eq c_str to_lower
known_key host key = refl

pub looked_up :
    (r : HttpRequest) (name : Bytes) {m : Headers} {v : Bytes}
    → r.headers ≡ m
    → get_header name [] m ≡ v
    → request_header r name [] ≡ v
unfolding request_header
looked_up r name e h = ap (get_header name []) e ∙ h

plain_header :
    {f : Field}
    → All (λ c. c ≢ 58) f.name
    → All (λ c. c ≢ 13) f.name
    → All (λ c. c ≢ 13) f.value
    → IsField f
plain_header a b c = record { no_colon = a; no_return_name = b; no_return_value = c }

pub handshake_request-IsHeader :
    (uri : Uri) (key : Bytes)
    → IsHeader (codes "Host", uri.host)
    → IsHeader (codes "Sec-WebSocket-Key", key)
    → All IsHeader (handshake_request uri key).headers
unfolding handshake_request
handshake_request-IsHeader uri key host h =
    construct_request-IsHeader get uri (handshake_headers key) [] host (
      plain_header (ground arith) (ground arith) (ground arith),
      (
        h,
        (
          plain_header (ground arith) (ground arith) (ground arith),
          (plain_header (ground arith) (ground arith) (ground arith), tt),
        ),
      ),
    )
