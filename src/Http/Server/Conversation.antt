-- ===== src/Http/Server/Conversation.antt =====
-- One connection of shero/net/http/HttpServer.cc from its start through the messages that come on it: the
-- parser in the connection's context, and the input buffer, to which handleRead of
-- shero/net/tcp/TcpConnection.cc appends before it makes the message callback.
use shero.Common.{
  ℕ, suc, ◌≡◌, ap, ◌∙◌, Bool, true, false, not, ◌&&◌, Option, subst, sym, refl, Bool-cases, inl,
  inr, none, some, List, [], ◌∷◌, ◌++◌, length, All, map, if◌then◌else◌,
}
use shero.Common.Bytes.{Bytes}
use shero.Buffer.{Buffer, to_string, write_len, new, initial_size}
use shero.Buffer.Invariant.{IsValid, write_len-IsValid, new-IsValid}
use shero.Buffer.Content.{write_len-to_string, empty_new}
use shero.Dispatch.{Dispatch}
use shero.Http.Message.{HttpRequest, default_request}
use shero.Http.Parser.{HttpParser, new_parser, set_target}
use shero.Http.Parser.Whole.{
  Field, IsField, store_fields, head_text, request_line, IsRequestLine, Version,
}
use shero.Http.Server.{
  Servlet, Call, Served, served, not_served, on_message, send, shutdown, respond,
}
use shero.Http.Server.Replies.{answer, Answers, answers, on_message-Answers}

-- `onConnection`: the context of a connection that came up is a new parser.
unfoldable pub on_connection : Bool → HttpParser → HttpParser
unfolding new_parser
on_connection connected p = if connected then new_parser else p

-- The parser, the input and the calls so far; `none` where a callback did not end or an assert failed.
abbrev pub Conversation : Type 0
Conversation = Option (HttpParser × Buffer × List Call)

unfoldable pub put_calls : List Call → Conversation → Conversation
put_calls calls none = none
put_calls calls (some (p, b, later)) = some (p, b, calls ++ later)

-- What of the calls comes to something, and whether the connection is still connected behind them:
-- `TcpConnection::send` drops its text and `shutdown` does nothing where the state is not `Connected`,
-- and `shutdown` leaves that state.
unfoldable pub take_calls : Bool → List Call → List Call × Bool
take_calls up [] = ([], up)
take_calls true (send text ∷ calls) =
    let (taken, up) = take_calls true calls in (send text ∷ taken, up)
take_calls true (shutdown ∷ calls) =
    let (taken, up) = take_calls false calls in (shutdown ∷ taken, up)
take_calls false (call ∷ calls) = take_calls false calls

unfoldable pub after_served :
    Bool → Served → (Bool → HttpParser → Buffer → Conversation) → Conversation
unfolding put_calls take_calls
after_served up (served p b calls) again =
    let (taken, still_up) = take_calls up calls in put_calls taken (again still_up p b)
after_served up (not_served o) again = none

module _ (fnmatch : Bytes → Bytes → ℕ) (dispatch : Dispatch Servlet) where
  -- The messages one after the other, each with the fuel for its parser loop, on a connection that is
  -- connected or half-closed: `handleRead` reads in both states.
  unfoldable pub converse : List (ℕ × Bytes) → Bool → HttpParser → Buffer → Conversation
  unfolding after_served
  converse [] up p b = some (p, b, [])
  converse ((fuel, text) ∷ messages) up p b =
      after_served up (on_message fnmatch dispatch fuel p (write_len text b))
        (λ up' p' b'. converse messages up' p' b')

-- A request head, in parts.
pub record Head : Type 0 where
  pub method : Bytes
  pub target : Bytes
  pub text : Bytes
  pub version : ℕ
  pub fields : List Field

pub record IsHead (h : Head) : Type 0 where
  pub line : IsRequestLine h.method h.target h.text
  pub version_known : Version h.text h.version
  pub each_field : All IsField h.fields

-- The head as a message of its own, with one round for each of its lines; and the request it stands for.
abbrev pub message_of : Head → ℕ × Bytes
message_of h = (
  suc (suc (length h.fields)),
  request_line h.method h.target h.text ++ (13 ∷ 10 ∷ head_text h.fields []),
)

abbrev pub request_of : Head → HttpRequest
request_of h =
    store_fields h.fields (record (set_target h.target default_request) { version = h.version })

-- What a connection that has left `Connected` takes.
take_calls_down : (calls : List Call) → take_calls false calls ≡ ([], false)
unfolding take_calls
take_calls_down [] = refl
take_calls_down (call ∷ calls) = take_calls_down calls

module _ (fnmatch : Bytes → Bytes → ℕ) (dispatch : Dispatch Servlet) where
  abbrev pub closes : Head → Bool
  closes h = (respond fnmatch dispatch (request_of h)).close

  -- The answers in order, to the first that closes the connection, and with it.
  abbrev pub answers_to : List Head → List Call
  answers_to [] = []
  answers_to (h ∷ hs) =
      let rest = answers_to hs in
      answer fnmatch dispatch (request_of h) ++ (if closes h then [] else rest)

  -- The conversation ended with a new parser and an empty valid input.
  pub data Answered (calls : List Call) : Conversation → Type 0 where
    answered :
        (b : Buffer) → IsValid b → to_string b ≡ [] → Answered calls (some (new_parser, b, calls))

  put_calls-Answered :
      (calls later : List Call) (c : Conversation)
      → Answered later c
      → Answered (calls ++ later) (put_calls calls c)
  unfolding put_calls
  put_calls-Answered calls later c (answered b v e) = answered b v e

  -- An answer on a connection that is connected is all taken, and it stays connected unless the answer
  -- closes it.
  take_calls-answer :
      (req : HttpRequest)
      → take_calls true (answer fnmatch dispatch req)
        ≡ (answer fnmatch dispatch req, not (respond fnmatch dispatch req).close)
  unfolding take_calls
  take_calls-answer req = elim (Bool-cases (respond fnmatch dispatch req).close) [
    | inl c ↦ rw c refl
    | inr c ↦ rw c refl
  ]

  after_served-Answered :
      (up : Bool) (req : HttpRequest) (later : List Call) (s : Served)
      (again : Bool → HttpParser → Buffer → Conversation)
      → Answers fnmatch dispatch req [] s
      → ((b : Buffer)
          → IsValid b
          → to_string b ≡ []
          → Answered later (again (up && not (respond fnmatch dispatch req).close) new_parser b))
      → Answered
          ((if up then answer fnmatch dispatch req else []) ++ later)
          (after_served up s again)
  unfolding after_served
  after_served-Answered true req later s again (answers b v e) k =
      subst
        (λ (r : List Call × Bool).
          Answered (answer fnmatch dispatch req ++ later)
            (put_calls (r.0) (again (r.1) new_parser b)))
        (sym (take_calls-answer req))
        (put_calls-Answered (answer fnmatch dispatch req) later _ (k b v e))
  after_served-Answered false req later s again (answers b v e) k =
      subst (λ (r : List Call × Bool). Answered later (put_calls (r.0) (again (r.1) new_parser b)))
        (sym (take_calls_down (answer fnmatch dispatch req)))
        (put_calls-Answered [] later (again false new_parser b) (k b v e))

  left_to_say :
      (up close : Bool) (now rest : List Call)
      → (if up then now else []) ++ (if up && not close then rest else [])
        ≡ (if up then now ++ (if close then [] else rest) else [])
  left_to_say true true now rest = refl
  left_to_say true false now rest = refl
  left_to_say false close now rest = refl

  converse-Answered :
      (hs : List Head) (up : Bool) (b : Buffer)
      → All IsHead hs
      → IsValid b
      → to_string b ≡ []
      → Answered
          (if up then answers_to hs else [])
          (converse fnmatch dispatch (map message_of hs) up new_parser b)
  unfolding converse new_parser
  converse-Answered [] true b w v e = answered b v e
  converse-Answered [] false b w v e = answered b v e
  converse-Answered (h ∷ hs) up b w v e =
      let goes_on = up && not (closes h) in
      let rest = if goes_on then answers_to hs else [] in
      subst
        (λ calls.
          Answered calls (converse fnmatch dispatch (map message_of (h ∷ hs)) up new_parser b))
        (left_to_say up (closes h) (answer fnmatch dispatch (request_of h)) (answers_to hs))
        (after_served-Answered up (request_of h) rest _ _
          (on_message-Answers fnmatch dispatch h.method h.target h.text h.version h.fields []
            default_request (write_len-IsValid _ v) w.0.line w.0.version_known w.0.each_field
            (write_len-to_string _ v ∙ ap (λ t. t ++ (message_of h).1) e))
          (λ b' v' e'. converse-Answered hs goes_on b' w.1 v' e'))

  -- On a connection that came up, with whole requests without bodies that come each as a message of
  -- their own: they are answered one after the other, each by the servlet that its path selects, to the
  -- first answer that closes the connection; what comes behind that is read and parsed, and nothing is
  -- sent for it. The parser is then as new and the input empty.
  pub on_connection-converse :
      (hs : List Head) (p : HttpParser)
      → All IsHead hs
      → Answered (answers_to hs) (
          converse fnmatch dispatch
            (map message_of hs)
            true
            (on_connection true p)
            (new initial_size))
  unfolding on_connection
  on_connection-converse hs p w =
      converse-Answered hs true (new initial_size) w (new-IsValid initial_size)
        (empty_new initial_size)
