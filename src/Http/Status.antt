-- ===== src/Http/Status.antt =====
-- shero/net/http/HttpStatus.h and HttpStatus.cc: the tables of methods and of status codes.
pub mod Prefix
use shero.Common.{ℕ, ◌≡◌, ◌≢◌, refl, List, [], ◌∷◌, ◌==◌, if◌then◌else◌, Bool-cases, inl, inr}
use shero.Common.Bytes.{Bytes, codes, bytes_eq, bytes_eq→eq, c_str}

pub data HttpMethod : Type 0 where
  delete get head post put connect options trace copy lock mkcol move propfind proppatch
        search_method unlock bind rebind unbind acl report mkactivity checkout merge msearch notify
        subscribe unsubscribe patch purge mkcalendar link unlink source invalid_method :
      HttpMethod

-- `HttpMethodToString`.
unfoldable pub method_name : HttpMethod → Bytes
method_name delete = codes "DELETE"
method_name get = codes "GET"
method_name head = codes "HEAD"
method_name post = codes "POST"
method_name put = codes "PUT"
method_name connect = codes "CONNECT"
method_name options = codes "OPTIONS"
method_name trace = codes "TRACE"
method_name copy = codes "COPY"
method_name lock = codes "LOCK"
method_name mkcol = codes "MKCOL"
method_name move = codes "MOVE"
method_name propfind = codes "PROPFIND"
method_name proppatch = codes "PROPPATCH"
method_name search_method = codes "SEARCH"
method_name unlock = codes "UNLOCK"
method_name bind = codes "BIND"
method_name rebind = codes "REBIND"
method_name unbind = codes "UNBIND"
method_name acl = codes "ACL"
method_name report = codes "REPORT"
method_name mkactivity = codes "MKACTIVITY"
method_name checkout = codes "CHECKOUT"
method_name merge = codes "MERGE"
method_name msearch = codes "MSEARCH"
method_name notify = codes "NOTIFY"
method_name subscribe = codes "SUBSCRIBE"
method_name unsubscribe = codes "UNSUBSCRIBE"
method_name patch = codes "PATCH"
method_name purge = codes "PURGE"
method_name mkcalendar = codes "MKCALENDAR"
method_name link = codes "LINK"
method_name unlink = codes "UNLINK"
method_name source = codes "SOURCE"
method_name invalid_method = codes "UNKNOW"

-- `HTTP_METHOD_MAP`, in its order.
abbrev pub all_methods : List HttpMethod
all_methods =
    delete ∷ get ∷ head ∷ post ∷ put ∷ connect ∷ options ∷ trace ∷ copy ∷ lock ∷ mkcol ∷ move
    ∷ propfind ∷ proppatch ∷ search_method ∷ unlock ∷ bind ∷ rebind ∷ unbind ∷ acl ∷ report
    ∷ mkactivity ∷ checkout ∷ merge ∷ msearch ∷ notify ∷ subscribe ∷ unsubscribe ∷ patch ∷ purge
    ∷ mkcalendar ∷ link ∷ unlink ∷ source ∷ []

-- The `strcmp` ladder of `StringToHttpMethod` over the methods of a list.
unfoldable pub find_method : List HttpMethod → Bytes → HttpMethod
find_method [] s = invalid_method
find_method (m ∷ ms) s = if bytes_eq (method_name m) (c_str s) then m else find_method ms s

unfoldable pub string_to_method : Bytes → HttpMethod
unfolding find_method
string_to_method = find_method all_methods

find_method_sound :
    (ms : List HttpMethod) (s : Bytes)
    → find_method ms s ≢ invalid_method
    → method_name (find_method ms s) ≡ c_str s
unfolding find_method
find_method_sound [] s h = absurd (h refl)
find_method_sound (m ∷ ms) s h = elim (Bool-cases (bytes_eq (method_name m) (c_str s))) [
  | inl same ↦ rw same (bytes_eq→eq (method_name m) (c_str s) same)
  | inr other ↦ rw other (find_method_sound ms s (rw other at h))
]

-- A name that `StringToHttpMethod` knows is, up to its first NUL, the name of the method that it
-- returns.
pub string_to_method_sound :
    (s : Bytes) → string_to_method s ≢ invalid_method → method_name (string_to_method s) ≡ c_str s
unfolding string_to_method
string_to_method_sound s h = find_method_sound all_methods s h

-- `StringToHttpMethod` gives back every method that `HttpMethodToString` names.
pub string_to_method-method_name :
    (m : HttpMethod) → m ≢ invalid_method → string_to_method (method_name m) ≡ m
unfolding string_to_method method_name bytes_eq c_str
string_to_method-method_name delete h = refl
string_to_method-method_name get h = refl
string_to_method-method_name head h = refl
string_to_method-method_name post h = refl
string_to_method-method_name put h = refl
string_to_method-method_name connect h = refl
string_to_method-method_name options h = refl
string_to_method-method_name trace h = refl
string_to_method-method_name copy h = refl
string_to_method-method_name lock h = refl
string_to_method-method_name mkcol h = refl
string_to_method-method_name move h = refl
string_to_method-method_name propfind h = refl
string_to_method-method_name proppatch h = refl
string_to_method-method_name search_method h = refl
string_to_method-method_name unlock h = refl
string_to_method-method_name bind h = refl
string_to_method-method_name rebind h = refl
string_to_method-method_name unbind h = refl
string_to_method-method_name acl h = refl
string_to_method-method_name report h = refl
string_to_method-method_name mkactivity h = refl
string_to_method-method_name checkout h = refl
string_to_method-method_name merge h = refl
string_to_method-method_name msearch h = refl
string_to_method-method_name notify h = refl
string_to_method-method_name subscribe h = refl
string_to_method-method_name unsubscribe h = refl
string_to_method-method_name patch h = refl
string_to_method-method_name purge h = refl
string_to_method-method_name mkcalendar h = refl
string_to_method-method_name link h = refl
string_to_method-method_name unlink h = refl
string_to_method-method_name source h = refl
string_to_method-method_name invalid_method h = absurd (h refl)

-- `HTTP_STATUS_MAP`: a status is its code, also one that the map lacks.
abbrev pub status_map : List (ℕ × Bytes)
status_map =
    (100, codes "Continue")
    ∷ (101, codes "Switching Protocols")
    ∷ (102, codes "Processing")
    ∷ (200, codes "OK")
    ∷ (201, codes "Created")
    ∷ (202, codes "Accepted")
    ∷ (203, codes "Non-Authoritative Information")
    ∷ (204, codes "No Content")
    ∷ (205, codes "Reset Content")
    ∷ (206, codes "Partial Content")
    ∷ (207, codes "Multi-Status")
    ∷ (208, codes "Already Reported")
    ∷ (226, codes "IM Used")
    ∷ (300, codes "Multiple Choices")
    ∷ (301, codes "Moved Permanently")
    ∷ (302, codes "Found")
    ∷ (303, codes "See Other")
    ∷ (304, codes "Not Modified")
    ∷ (305, codes "Use Proxy")
    ∷ (307, codes "Temporary Redirect")
    ∷ (308, codes "Permanent Redirect")
    ∷ (400, codes "Bad Request")
    ∷ (401, codes "Unauthorized")
    ∷ (402, codes "Payment Required")
    ∷ (403, codes "Forbidden")
    ∷ (404, codes "Not Found")
    ∷ (405, codes "Method Not Allowed")
    ∷ (406, codes "Not Acceptable")
    ∷ (407, codes "Proxy Authentication Required")
    ∷ (408, codes "Request Timeout")
    ∷ (409, codes "Conflict")
    ∷ (410, codes "Gone")
    ∷ (411, codes "Length Required")
    ∷ (412, codes "Precondition Failed")
    ∷ (413, codes "Payload Too Large")
    ∷ (414, codes "URI Too Long")
    ∷ (415, codes "Unsupported Media Type")
    ∷ (416, codes "Range Not Satisfiable")
    ∷ (417, codes "Expectation Failed")
    ∷ (421, codes "Misdirected Request")
    ∷ (422, codes "Unprocessable Entity")
    ∷ (423, codes "Locked")
    ∷ (424, codes "Failed Dependency")
    ∷ (426, codes "Upgrade Required")
    ∷ (428, codes "Precondition Required")
    ∷ (429, codes "Too Many Requests")
    ∷ (431, codes "Request Header Fields Too Large")
    ∷ (451, codes "Unavailable For Legal Reasons")
    ∷ (500, codes "Internal Server Error")
    ∷ (501, codes "Not Implemented")
    ∷ (502, codes "Bad Gateway")
    ∷ (503, codes "Service Unavailable")
    ∷ (504, codes "Gateway Timeout")
    ∷ (505, codes "HTTP Version Not Supported")
    ∷ (506, codes "Variant Also Negotiates")
    ∷ (507, codes "Insufficient Storage")
    ∷ (508, codes "Loop Detected")
    ∷ (510, codes "Not Extended")
    ∷ (511, codes "Network Authentication Required")
    ∷ []

-- The `switch` of `HttpStatusToString` over the rows of a map.
unfoldable pub find_status : List (ℕ × Bytes) → ℕ → Bytes
find_status [] status = codes "UNKNOW"
find_status ((c, desc) ∷ rows) status = if c == status then desc else find_status rows status

unfoldable pub status_to_string : ℕ → Bytes
unfolding find_status
status_to_string = find_status status_map
