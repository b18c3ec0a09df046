-- ===== src/Http/Client.antt =====
-- shero/net/http/client/HttpClient.cc: the life of a client on one connection. Its children model the
-- request it builds and the response it puts together.
pub mod Request
pub mod Response
pub mod Chunks
pub mod Length
pub mod Life
pub mod Flow
pub mod Construct
pub mod Served
use shero.Common.{
  ℕ, zero, suc, ◌+◌, ◌-◌, ◌*◌, ◌%◌, ◌^◌, Bool, true, false, not, ◌&&◌, ◌||◌, Option, none, some,
  List, [], ◌∷◌, ◌++◌, ltb, leb, ◌==◌, if◌then◌else◌, length, take, drop,
}
use shero.Common.Bytes.{Bytes, codes}
use shero.Http.Status.{HttpMethod}
use shero.Http.Headers.{Headers, same_key}
use shero.Http.Message.{
  HttpRequest, HttpResponse, default_request, set_request_header, response_header, dump_request,
}
use shero.Http.Client.Response.{ResponseParser, Parsed, parsed, null, looping, parse_response}

-- The state of an `HttpClient`: whether it counts as connected, whether it has the connection, the
-- request that its send callback holds, what was received, `m_res` with the verdict behind it, and
-- what it did: texts sent, posts of the semaphore, calls of `TcpClient::disconnect`.
pub record HttpClient : Type 0 where
  pub connect : Bool
  pub has_conn : Bool
  pub callback : Option HttpRequest
  pub res_http : List Bytes
  pub res : Option Parsed
  pub sent : List Bytes
  pub posts : ℕ
  pub disconnects : ℕ

-- The constructor, and `setSendCallback` of `DoRequest`.
unfoldable pub new_client : HttpRequest → HttpClient
new_client req = record {
  connect = false;
  has_conn = false;
  callback = some req;
  res_http = [];
  res = none;
  sent = [];
  posts = 0;
  disconnects = 0;
}

-- `disconnect`.
unfoldable pub disconnect : HttpClient → HttpClient
disconnect c = record c { has_conn = false; disconnects = c.disconnects + 1 }

-- `onSendRequest`, through the callback where there is one.
unfoldable pub send_request : Option HttpRequest → HttpClient → HttpClient
send_request none c = c
send_request (some req) c = record c { sent = c.sent ++ (dump_request req ∷ []); callback = none }

-- Behind `HttpParserResponse`: `m_res`, `sem_post` and `disconnect`, which are not come to where that
-- does not return.
unfoldable pub post_result : Parsed → HttpClient → HttpClient
unfolding disconnect
post_result looping c = c
post_result (parsed res) c = disconnect (record c { res = some (parsed res); posts = c.posts + 1 })
post_result null c = disconnect (record c { res = some null; posts = c.posts + 1 })

module _ {P : Type 0} (rp : ResponseParser P) (fuel : ℕ) where
  -- The end of `onMessage`, on what was received.
  unfoldable pub finish_with : List Bytes → HttpClient → HttpClient
  unfolding post_result
  finish_with [] c = c
  finish_with (m ∷ rest) c = post_result (parse_response rp fuel m rest) c

  -- `onMessage`, with what the buffer holds; where the client is not connected that is not read.
  unfoldable pub on_message : Bytes → HttpClient → HttpClient
  unfolding finish_with
  on_message text c =
      if c.connect
      then record c { res_http = c.res_http ++ (text ∷ []) }
      else finish_with c.res_http c

  -- `onConnection`.
  unfoldable pub on_connection : Bool → HttpClient → HttpClient
  unfolding send_request on_message
  on_connection true c = send_request c.callback (record c { has_conn = true; connect = true })
  on_connection false c =
      on_message [] (record c { disconnects = c.disconnects + 1; connect = false })

  -- One message after the other.
  unfoldable pub on_messages : List Bytes → HttpClient → HttpClient
  unfolding on_message
  on_messages [] c = c
  on_messages (m ∷ ms) c = on_messages ms (on_message m c)
