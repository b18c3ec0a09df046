-- ===== src/WebSocket/Server/Isolation.antt =====
-- What a message or an event on one connection leaves of the others' entries.
use shero.Common.{
  ℕ, ◌≡◌, ◌≢◌, refl, ◌∙◌, Bool, false, ◌==◌, Option, none, some, List, [], ◌∷◌, ◌++◌, if◌then◌else◌,
  Bool-cases, inl, inr, arith,
}
use shero.Common.Bytes.{Bytes, codes}
use shero.Buffer.{Buffer}
use shero.Dispatch.{Dispatch}
use shero.Http.Headers.{same_key}
use shero.Http.Message.{HttpRequest, request_header}
use shero.Http.Parser.{
  HttpParser, is_finished, parser_line, parser_headers, parser_body, parser_finished, reset,
  Outcome, returned, assert_failed, looping, parse_http_request,
}
use shero.Http.Server.{Call, send, shutdown, bad_request}
use shero.WebSocket.Frame.{Message}
use shero.WebSocket.Exchange.{Exchanged, exchanged, interrupted, out_of_range, exchange}
use shero.WebSocket.Exchange.{looping as unfinished}
use shero.WebSocket.Server.{
  Protocol, tcp, websocket, Conns, find_conn, set_conn, erase_conn, accept, http_handshake,
  Received, received, not_parsed, cut_short, not_followed, after_parse, after_exchange, handle,
  receive, on_message,
}

pub find_conn-set_conn :
    (j it : ℕ) (p : Protocol) (path : Bytes) (conns : Conns)
    → find_conn j (set_conn it p path conns)
      ≡ (if it == j then some (p, path) else find_conn j conns)
unfolding find_conn set_conn
find_conn-set_conn j it p path [] = refl
find_conn-set_conn j it p path ((k, q, old) ∷ m) = ground (arith, find_conn-set_conn j it p path m)

find_conn-erase_conn :
    (j it : ℕ) (conns : Conns) → j ≢ it → find_conn j (erase_conn it conns) ≡ find_conn j conns
unfolding find_conn erase_conn
find_conn-erase_conn j it [] h = refl
find_conn-erase_conn j it ((k, q, old) ∷ m) h = ground (arith, find_conn-erase_conn j it m)

-- The entry of `it` becomes a WebSocket's, or nothing changes.
data Moves (it : ℕ) (conns : Conns) : Conns → Type 0 where
  stays : Moves it conns conns
  switches : (path : Bytes) → Moves it conns (set_conn it websocket path conns)

Moves-find_conn :
    (j it : ℕ) (conns conns' : Conns)
    → j ≢ it
    → Moves it conns conns'
    → find_conn j conns' ≡ find_conn j conns
Moves-find_conn j it conns conns' h stays = refl
Moves-find_conn j it conns conns' h (switches path) =
    let other : (it == j) ≡ false = ground arith in
    find_conn-set_conn j it websocket path conns ∙ rw other refl

module _ (sha1 base64 : Bytes → Bytes) where
  accept-Moves :
      (it : ℕ) (key : Bytes) (req : HttpRequest) (conns : Conns)
      → Moves it conns (accept sha1 base64 it key req conns).0
  unfolding accept
  accept-Moves it [] req conns = stays
  accept-Moves it (x ∷ xs) req conns = switches req.path

  http_handshake-Moves :
      (it : ℕ) (req : HttpRequest) (conns : Conns)
      → Moves it conns (http_handshake sha1 base64 it req conns).0
  unfolding http_handshake
  http_handshake-Moves it req conns =
      elim (Bool-cases (same_key (request_header req (codes "Upgrade") []) (codes "websocket"))) [
        | inr u ↦ rw u stays
        | inl u ↦
            elim (Bool-cases
              (same_key (request_header req (codes "Connection") []) (codes "Upgrade"))) [
                | inr k ↦ rw (u, k) stays
                | inl k ↦
                    rw (u, k)
                      (accept-Moves it (request_header req (codes "Sec-WebSocket-Key") []) req
                        conns)
              ]
      ]

-- Another connection's entry is what it was.
abbrev pub Keeps : ℕ → Conns → Received → Type 0
Keeps j conns (received conns' p b calls) = find_conn j conns' ≡ find_conn j conns
Keeps j conns (not_parsed o) = Unit
Keeps j conns (cut_short calls) = Unit
Keeps j conns (not_followed calls) = Unit

module _ (sha1 base64 : Bytes → Bytes) (alloc : ℕ → Bool) (fnmatch : Bytes → Bytes → ℕ)
    (dispatch : Dispatch (Message → List Call)) where
  after_parse-Keeps :
      (j it : ℕ) (conns : Conns) (o : Outcome)
      → j ≢ it
      → Keeps j conns (after_parse sha1 base64 alloc fnmatch dispatch it conns o)
  unfolding after_parse
  after_parse-Keeps j it conns (returned ok p b) h =
      elim p.state
        as (λ s. Keeps j conns (
          let refused = if ok then [] else send bad_request ∷ shutdown ∷ [] in
          let (shaken, calls) = http_handshake sha1 base64 it p.request conns in
          if is_finished (record p { state = s })
          then received shaken (reset p) b (refused ++ calls)
          else received conns p b refused)) [
            | parser_finished ↦
                Moves-find_conn j it conns (http_handshake sha1 base64 it p.request conns).0 h
                  (http_handshake-Moves sha1 base64 it p.request conns)
            | parser_line ↦ refl
            | parser_headers ↦ refl
            | parser_body ↦ refl
          ]
  after_parse-Keeps j it conns assert_failed h = tt
  after_parse-Keeps j it conns looping h = tt

  after_exchange-Keeps :
      (j : ℕ) (conns : Conns) (p : HttpParser) (x : Exchanged (List Call))
      → Keeps j conns (after_exchange sha1 base64 alloc fnmatch dispatch conns p x)
  unfolding after_exchange
  after_exchange-Keeps j conns p (exchanged css b) = refl
  after_exchange-Keeps j conns p (interrupted css) = tt
  after_exchange-Keeps j conns p (out_of_range css) = tt
  after_exchange-Keeps j conns p (unfinished css) = tt

  receive-Keeps :
      (fuel j it : ℕ) (p : HttpParser) (b : Buffer) (conns : Conns) (o : Option (Protocol × Bytes))
      → j ≢ it
      → Keeps j conns (receive sha1 base64 alloc fnmatch dispatch fuel it p b conns o)
  unfolding receive
  receive-Keeps fuel j it p b conns none h = refl
  receive-Keeps fuel j it p b conns (some (tcp, path)) h =
      after_parse-Keeps j it conns (parse_http_request fuel p b) h
  receive-Keeps fuel j it p b conns (some (websocket, path)) h =
      after_exchange-Keeps j conns p
        (exchange alloc (handle sha1 base64 alloc fnmatch dispatch path) fuel b)

  -- What `onMessage` does for a connection leaves the protocol and the path of every other one.
  pub on_message-Keeps :
      (fuel j it : ℕ) (p : HttpParser) (b : Buffer) (conns : Conns)
      → j ≢ it
      → Keeps j conns (on_message sha1 base64 alloc fnmatch dispatch fuel it p b conns)
  unfolding on_message
  on_message-Keeps fuel j it p b conns h = receive-Keeps fuel j it p b conns (find_conn it conns) h
