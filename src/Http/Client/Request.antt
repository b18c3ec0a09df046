-- ===== src/Http/Client/Request.antt =====
-- `HttpConstructRequest` of shero/net/http/client/HttpClient.cc: the request that a client builds.
use shero.Common.{Bool, true, false, not, ◌&&◌, List, [], ◌∷◌, if◌then◌else◌}
use shero.Common.Bytes.{Bytes, codes}
use shero.Net.Uri.{Uri, get_path}
use shero.Http.Status.{HttpMethod}
use shero.Http.Headers.{same_key}
use shero.Http.Message.{HttpRequest, default_request, set_request_header}

-- What a "Connection" header becomes.
unfoldable pub construct_connection : Bytes → HttpRequest → HttpRequest
construct_connection v r =
    if same_key v (codes "Upgrade")
    then record (set_request_header (codes "Connection") (codes "Upgrade") r) { websocket = true }
    else if same_key v (codes "keep-alive")
    then record r { close = false }
    else r

abbrev pub is_empty : Bytes → Bool
is_empty [] = true
is_empty (x ∷ xs) = false

-- The loop over the headers; the flag says that a host was given.
unfoldable pub construct_headers : List (Bytes × Bytes) → Bool → HttpRequest → Bool × HttpRequest
unfolding construct_connection
construct_headers [] host r = (host, r)
construct_headers ((k, v) ∷ m) host r =
    let connection = same_key k (codes "Connection") in
    construct_headers m
      (if not connection && (not host && same_key k (codes "host")) then not (is_empty v) else host)
      (if connection then construct_connection v r else set_request_header k v r)

-- The end of it: the host of the URI where none was given.
unfoldable pub construct_host : Uri → Bool → HttpRequest → HttpRequest
construct_host uri host r = if host then r else set_request_header (codes "Host") uri.host r

-- `HttpConstructRequest(method, uri, headers, body)`.
unfoldable pub construct_request : HttpMethod → Uri → List (Bytes × Bytes) → Bytes → HttpRequest
unfolding construct_headers construct_host
construct_request method uri headers body =
    let start = record default_request {
      method = method;
      path = get_path uri;
      query = uri.query;
      fragment = uri.fragment;
      body = body;
    } in
    let (host, r) = construct_headers headers false start in construct_host uri host r
