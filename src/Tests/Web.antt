-- ===== src/Tests/Web.antt =====
-- The HTTP half: concrete runs.
use shero.Common.{
  true, map, List, ℕ, ◌<◌, ◌≡◌, refl, ap, none, some, [], ◌∷◌, ◌++◌, arith, length, inl,
  if◌then◌else◌, ◌==◌,
}
use shero.Common.Bytes.{Bytes, codes, bytes_eq, c_str, to_lower}
use shero.Buffer.{new, initial_size, readable_bytes, find_crlf, search_crlf}
use shero.Buffer.Invariant.{length-to_string}
use shero.Dispatch.{
  Dispatch, add_glob_servlet, del_glob_servlet, get_servlet, get_matched_servlet, glob_match,
}
use shero.Dispatch.Laws.{get_matched_servlet-add_glob_servlet}
use shero.Http.Status.{method_name, string_to_method}
use shero.Http.Headers.{same_key, fold_key}
use shero.Http.Message.{default_request, new_request, HttpRequest, dump_request}
use shero.Http.Parser.{
  new_parser, HttpParser, parser_line, parser_finished, set_target, parse_http_request,
}
use shero.Http.Parser.Progress.{Settles, parse_http_request-Settles}
use shero.Http.Parser.Whole.{Field, IsField, IsRequestLine, one_one, Finishes, store_fields}
use shero.Http.Parser.Printed.{printed_fields, target_of, parse_http_request-dump_request}
use shero.Http.Server.{Servlet, send, shutdown, bad_request, served, not_found_servlet, on_message}
use shero.Http.Server.Conversation.{
  Head, IsHead, message_of, Answered, answers_to, converse, on_connection, on_connection-converse,
}
use shero.Http.Server.Replies.{
  Replied, Answers, on_message-Replied, on_message-Answers, on_message_partial,
}
use shero.Tests.{holding, holding-IsValid, holding-to_string}

-- "GET /a?x HTTP/1.1", one header, and a byte of what follows.
abbrev target : Bytes
target = codes "/a?x"

abbrev host : Field
host = record { name = codes "Host"; value = codes " shero " }

abbrev whole : Bytes
whole =
    codes "GET /a?x HTTP/1.1" ++ (13 ∷ 10 ∷ (codes "Host: shero " ++ (13 ∷ 10 ∷ 13 ∷ 10 ∷ 71 ∷ [])))

abbrev parsed : HttpRequest
parsed = store_fields (host ∷ []) (record (set_target target default_request) { version = 0x11 })

host-IsField : IsField host
host-IsField = record {
  no_colon = ground arith;
  no_return_name = ground arith;
  no_return_value = ground arith;
}

get_line : IsRequestLine (codes "GET") target (codes "HTTP/1.1")
unfolding string_to_method bytes_eq method_name c_str
get_line = record {
  known = refl;
  method_space = ground arith;
  method_return = ground arith;
  target_space = ground arith;
  target_return = ground arith;
}

-- A request to print, with a query, a header and a body.
abbrev printed : HttpRequest
printed = record default_request {
  path = codes "/a";
  query = codes "x";
  headers = (codes "Host", codes "shero") ∷ [];
  body = codes "hi";
}

printed_line : IsRequestLine (method_name printed.method) (target_of printed) (codes "HTTP/1.1")
unfolding string_to_method bytes_eq method_name c_str new_request
printed_line = record {
  known = refl;
  method_space = ground arith;
  method_return = ground arith;
  target_space = ground arith;
  target_return = ground arith;
}

printed_host-IsField : IsField (record { name = codes "Host"; value = codes " shero" })
printed_host-IsField = record {
  no_colon = ground arith;
  no_return_name = ground arith;
  no_return_value = ground arith;
}

parse_http_request-dump_request_example :
    Finishes
      (store_fields
        (printed_fields printed)
        (record (set_target (target_of printed) default_request) { version = 0x11 }))
      (codes "hi")
      (parse_http_request 5
        (record { state = parser_line; request = default_request })
        (holding (dump_request printed)))
unfolding new_request same_key bytes_eq fold_key c_str to_lower
parse_http_request-dump_request_example =
    parse_http_request-dump_request printed default_request (codes "HTTP/1.1")
      {b = holding (dump_request printed)} (holding-IsValid (dump_request printed)) printed_line
      one_one (printed_host-IsField, tt) (holding-to_string (dump_request printed))

readable_whole : readable_bytes (holding whole) < 40
readable_whole =
    omega (arith, length-to_string (holding-IsValid whole), ap length (holding-to_string whole))

parse_http_request-Settles_example : Settles default_request.method (
    parse_http_request 40
      (record { state = parser_line; request = default_request })
      (holding whole))
parse_http_request-Settles_example =
    parse_http_request-Settles 40 (record { state = parser_line; request = default_request })
      {b = holding whole} (holding-IsValid whole) (inl refl) readable_whole

abbrev finished : HttpParser
finished = record { state = parser_finished; request = default_request }

-- Matches everything.
abbrev any : Bytes → Bytes → ℕ
any pattern uri = 0

abbrev empty : Dispatch Servlet
empty = record { default = not_found_servlet; servlets = []; glob_servlets = [] }

on_message-Replied_example :
    Replied any empty
      (parse_http_request 40
        (record { state = parser_line; request = default_request })
        (holding whole))
      (on_message any empty 40
        (record { state = parser_line; request = default_request })
        (holding whole))
on_message-Replied_example =
    on_message-Replied any empty 40 (record { state = parser_line; request = default_request })
      {b = holding whole} (holding-IsValid whole) (inl refl) readable_whole

on_message-Answers_example : Answers any empty parsed (71 ∷ []) (
    on_message any empty 3
      (record { state = parser_line; request = default_request })
      (holding whole))
on_message-Answers_example =
    on_message-Answers any empty (codes "GET") target (codes "HTTP/1.1") 0x11 (host ∷ []) (71 ∷ [])
      default_request {b = holding whole} (holding-IsValid whole) get_line one_one
      (host-IsField, tt) (holding-to_string whole)

no_line : find_crlf (holding (codes "GET /")) ≡ none
unfolding search_crlf find_crlf
no_line = rw (find_crlf, holding-to_string (codes "GET /")) refl

on_message_partial_example :
    on_message any empty 9
      (record { state = parser_line; request = default_request })
      (holding (codes "GET /"))
    ≡ served
        (record { state = parser_line; request = default_request })
        (holding (codes "GET /"))
        (send bad_request ∷ shutdown ∷ [])
on_message_partial_example =
    on_message_partial any empty 8 (record { state = parser_line; request = default_request })
      (holding (codes "GET /")) (inl refl) no_line

-- Two entries and a pattern.
abbrev table : Dispatch ℕ
table = record {
  default = 404;
  servlets = (codes "/a", 1) ∷ (codes "/b", 2) ∷ [];
  glob_servlets = (codes "/*", 3) ∷ [];
}

get_matched_servlet-add_glob_servlet_example :
    get_matched_servlet any (codes "/c") (add_glob_servlet (codes "/c*") 9 table)
    ≡ elim (get_servlet (codes "/c") table) [
      | some s ↦ s
      | none ↦
          elim (glob_match any (codes "/c") (del_glob_servlet (codes "/c*") table).glob_servlets) [
            | some s ↦ s
            | none ↦
                if any (c_str (codes "/c*")) (c_str (codes "/c")) == 0 then 9 else table.default
          ]
    ]
get_matched_servlet-add_glob_servlet_example =
    get_matched_servlet-add_glob_servlet any (codes "/c") (codes "/c*") 9 table

-- A request that closes the connection, between two that are alike.
abbrev first_head : Head
first_head = record {
  method = codes "GET";
  target = target;
  text = codes "HTTP/1.1";
  version = 0x11;
  fields = host ∷ [];
}

abbrev closing : Field
closing = record { name = codes "Connection"; value = codes " close" }

abbrev three_heads : List Head
three_heads = first_head ∷ record first_head { fields = closing ∷ [] } ∷ first_head ∷ []

first_head-IsHead : IsHead first_head
first_head-IsHead = record {
  line = get_line;
  version_known = one_one;
  each_field = (host-IsField, tt);
}

closing-IsHead : IsHead (record first_head { fields = closing ∷ [] })
closing-IsHead = record {
  line = get_line;
  version_known = one_one;
  each_field = (
    record {
      no_colon = ground arith;
      no_return_name = ground arith;
      no_return_value = ground arith;
    },
    tt,
  );
}

on_connection-converse_example : Answered any empty (answers_to any empty three_heads) (
    converse any empty
      (map message_of three_heads)
      true
      (on_connection true new_parser)
      (new initial_size))
on_connection-converse_example =
    on_connection-converse any empty three_heads new_parser
      (first_head-IsHead, (closing-IsHead, (first_head-IsHead, tt)))
