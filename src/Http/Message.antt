-- ===== src/Http/Message.antt =====
-- shero/net/http/HttpCommon.h and HttpCommon.cc: requests, responses and their text.
use shero.Common.{ℕ, ◌/◌, ◌%◌, Bool, true, false, [], ◌∷◌, ◌++◌, ◌&&◌, not, if◌then◌else◌, length}
use shero.Common.Bytes.{Bytes, codes, decimal, marked}
use shero.Http.Status.{HttpMethod, get, method_name, status_to_string}
use shero.Http.Headers.{Headers, same_key, insert, erase, get_header}

pub record HttpRequest : Type 0 where
  pub method : HttpMethod
  pub version : ℕ
  pub path : Bytes
  pub query : Bytes
  pub fragment : Bytes
  pub body : Bytes
  pub close : Bool
  pub websocket : Bool
  pub headers : Headers
  pub params : Headers

-- `HttpRequest(version, close)`.
unfoldable pub new_request : ℕ → Bool → HttpRequest
new_request version close = record {
  method = get;
  version = version;
  path = codes "/";
  query = [];
  fragment = [];
  body = [];
  close = close;
  websocket = false;
  headers = [];
  params = [];
}

-- The default arguments of the constructor.
abbrev pub default_request : HttpRequest
default_request = new_request 0x11 true

unfoldable pub request_header : HttpRequest → Bytes → Bytes → Bytes
unfolding get_header
request_header r key def = get_header key def r.headers

unfoldable pub request_param : HttpRequest → Bytes → Bytes → Bytes
unfolding get_header
request_param r key def = get_header key def r.params

unfoldable pub set_request_header : Bytes → Bytes → HttpRequest → HttpRequest
set_request_header key val r = record r { headers = insert key val r.headers }

unfoldable pub set_param : Bytes → Bytes → HttpRequest → HttpRequest
set_param key val r = record r { params = insert key val r.params }

unfoldable pub del_request_header : Bytes → HttpRequest → HttpRequest
del_request_header key r = record r { headers = erase key r.headers }

unfoldable pub del_param : Bytes → HttpRequest → HttpRequest
del_param key r = record r { params = erase key r.params }

pub record HttpResponse : Type 0 where
  pub status : ℕ
  pub version : ℕ
  pub body : Bytes
  pub reason : Bytes
  pub close : Bool
  pub websocket : Bool
  pub headers : Headers

-- `HttpResponse(version, close)`.
unfoldable pub new_response : ℕ → Bool → HttpResponse
new_response version close = record {
  status = 200;
  version = version;
  body = [];
  reason = [];
  close = close;
  websocket = false;
  headers = [];
}

unfoldable pub response_header : HttpResponse → Bytes → Bytes → Bytes
unfolding get_header
response_header r key def = get_header key def r.headers

unfoldable pub set_response_header : Bytes → Bytes → HttpResponse → HttpResponse
set_response_header key val r = record r { headers = insert key val r.headers }

unfoldable pub del_response_header : Bytes → HttpResponse → HttpResponse
del_response_header key r = record r { headers = erase key r.headers }

abbrev pub crlf : Bytes
crlf = 13 ∷ 10 ∷ []

-- "HTTP/", the two halves of the version byte.
unfoldable pub dump_version : ℕ → Bytes
dump_version version =
    codes "HTTP/" ++ (decimal (version / 16) ++ (codes "." ++ decimal (version % 16)))

-- The "Connection" line of a message that is no WebSocket handshake.
unfoldable pub dump_connection : Bool → Bool → Bytes
dump_connection websocket close =
    if websocket
    then []
    else codes "Connection: " ++ ((if close then codes "close" else codes "keep-alive") ++ crlf)

-- The loop over `m_headers`.
unfoldable pub dump_headers : Bool → Headers → Bytes
dump_headers websocket [] = []
dump_headers websocket ((k, v) ∷ m) =
    let rest = dump_headers websocket m in
    if not websocket && same_key k (codes "connection")
    then rest
    else k ++ (codes ": " ++ (v ++ (crlf ++ rest)))

-- The end of the head, with "content-length" where there is a body.
unfoldable pub dump_body : Bytes → Bytes
dump_body [] = crlf
dump_body (x ∷ xs) =
    codes "content-length: " ++ (decimal (length (x ∷ xs)) ++ (crlf ++ (crlf ++ (x ∷ xs))))

-- `HttpRequest::dump`.
unfoldable pub dump_request : HttpRequest → Bytes
unfolding dump_version dump_connection dump_headers dump_body
dump_request r =
    method_name r.method
    ++ (codes " "
        ++ (r.path
            ++ (marked (codes "?") r.query
                ++ (marked (codes "#") r.fragment
                    ++ (codes " "
                        ++ (dump_version r.version
                            ++ (crlf
                                ++ (dump_connection r.websocket r.close
                                    ++ (dump_headers r.websocket r.headers
                                        ++ dump_body r.body)))))))))

abbrev pub reason_or_default : Bytes → ℕ → Bytes
reason_or_default [] status = status_to_string status
reason_or_default (x ∷ xs) status = x ∷ xs

-- `HttpResponse::dump`.
unfoldable pub dump_response : HttpResponse → Bytes
unfolding dump_version dump_connection dump_headers dump_body
dump_response r =
    dump_version r.version
    ++ (codes " "
        ++ (decimal r.status
            ++ (codes " "
                ++ (reason_or_default r.reason r.status
                    ++ (crlf
                        ++ (dump_connection r.websocket r.close
                            ++ (dump_headers r.websocket r.headers ++ dump_body r.body)))))))
