-- ===== src/Http/Client/Flow.antt =====
-- `DoGet`, `DoPost` and `DoRequest` of shero/net/http/client/HttpClient.cc, up to `sem_wait`.
use shero.Common.{Option, none, some, List, ◌==◌, if◌then◌else◌}
use shero.Common.Bytes.{Bytes}
use shero.Net.Address.{Address}
use shero.Net.Uri.{Uri, create_address}
use shero.Http.Status.{HttpMethod, get, post}
use shero.Http.Message.{HttpRequest}
use shero.Http.Client.{HttpClient, new_client}
use shero.Http.Client.Request.{construct_request}
use shero.Http.Client.Response.{Parsed}

-- A null pointer is followed, or a client whose send callback is set connects to an address and the
-- caller waits for its semaphore.
pub data Requested : Type 0 where
  null_uri : Requested
  null_address : Requested
  waits : Address → HttpClient → Requested

unfoldable pub request_at : Option Address → HttpRequest → Requested
request_at none req = null_address
request_at (some addr) req = waits addr (new_client req)

module _ (create : Bytes → Option Uri)
    (getaddrinfo : Bytes → Option Bytes → Option (List Address)) where
  -- `DoRequest(method, uri)`.
  unfoldable pub do_request : HttpMethod → Option Uri → List (Bytes × Bytes) → Bytes → Requested
  unfolding request_at
  do_request method none headers body = null_uri
  do_request method (some uri) headers body =
      request_at (create_address getaddrinfo uri) (construct_request method uri headers body)

  -- `DoRequest(method, url)`.
  unfoldable pub do_request_url : HttpMethod → Bytes → List (Bytes × Bytes) → Bytes → Requested
  unfolding do_request
  do_request_url method url headers body = do_request method (create url) headers body

  unfoldable pub do_get_url : Bytes → List (Bytes × Bytes) → Bytes → Requested
  unfolding do_request
  do_get_url url headers body = do_request get (create url) headers body

  unfoldable pub do_get : Option Uri → List (Bytes × Bytes) → Bytes → Requested
  unfolding do_request
  do_get uri headers body = do_request get uri headers body

  unfoldable pub do_post_url : Bytes → List (Bytes × Bytes) → Bytes → Requested
  unfolding do_request
  do_post_url url headers body = do_request post (create url) headers body

  unfoldable pub do_post : Option Uri → List (Bytes × Bytes) → Bytes → Requested
  unfolding do_request
  do_post uri headers body = do_request post uri headers body

-- What is returned behind `sem_wait`; `none` while nobody posted.
unfoldable pub answer_of : HttpClient → Option (Option Parsed)
answer_of c = if c.posts == 0 then none else some c.res
