-- ===== src/WebSocket/Client/Sending.antt =====
-- What the client sends in pieces reaches the other side's handler in one.
use shero.Common.{
  ℕ, ◌≤◌, ◌<◌, ◌≡◌, sym, ap, ◌∙◌, Bool, true, false, not, ◌&&◌, List, [], ◌∷◌, ◌++◌, append_assoc,
  length, All, if◌then◌else◌, arith, append-nil, subst, length-append,
}
use shero.Buffer.{Buffer}
use shero.Buffer.Network.{Holds}
use shero.WebSocket.Frame.{Message, encode_frames}
use shero.WebSocket.Frame.Messages.{joined, texts, IsSendable, CanHold}
use shero.WebSocket.Exchange.{exchanged, exchange}
use shero.WebSocket.Exchange.Delivers.{exchange-delivers}
use shero.WebSocket.Client.{WsClient, send_text, send, send_ws}

-- All the pieces by `sendWS`, `last` with `fin`.
abbrev pub send_pieces : (ℕ → ℕ) → List Message → Message → WsClient → WsClient
send_pieces rand [] last c = (send_ws rand true last.text last.opcode true c).1
send_pieces rand (m ∷ ms) last c =
    send_pieces rand ms last (send_ws rand true m.text m.opcode false c).1

send_ws_more :
    (rand : ℕ → ℕ) (m : Message) (c : WsClient)
    → c.connect ≡ true
    → (send_ws rand true m.text m.opcode false c).1 ≡ record c { messages = c.messages ++ (m ∷ []) }
unfolding send_ws
send_ws_more rand m c h =
    ap
      (λ b.
        (if not (b && true)
          then (false, c)
          else (let kept : Bool × WsClient =
                (true, record c { messages = c.messages ++ (m ∷ []) }) in
              kept)).1)
      h

send_ws_last :
    (rand : ℕ → ℕ) (m : Message) (c : WsClient)
    → c.connect ≡ true
    → (send_ws rand true m.text m.opcode true c).1.sent
      ≡ c.sent ++ (encode_frames rand (c.messages ++ (m ∷ [])) ∷ [])
unfolding send_ws send send_text
send_ws_last rand m c h =
    ap
      (λ b.
        (if not (b && true)
          then (false, c)
          else (let flushed : Bool × WsClient = (
            true,
            record c {
              messages = [];
              sent = c.sent ++ (encode_frames rand (c.messages ++ (m ∷ [])) ∷ []);
            },
          ) in
              flushed)).1.sent)
      h

send_pieces-sent :
    (rand : ℕ → ℕ) (ms : List Message) (last : Message) (c : WsClient)
    → c.connect ≡ true
    → (send_pieces rand ms last c).sent
      ≡ c.sent ++ (encode_frames rand (c.messages ++ (ms ++ (last ∷ []))) ∷ [])
send_pieces-sent rand [] last c h = send_ws_last rand last c h
send_pieces-sent rand (m ∷ ms) last c h =
    let kept : WsClient = record c { messages = c.messages ++ (m ∷ []) } in
    ap (λ (d : WsClient). (send_pieces rand ms last d).sent) (send_ws_more rand m c h)
    ∙ send_pieces-sent rand ms last kept h
    ∙ ap (λ t. c.sent ++ (encode_frames rand t ∷ []))
        (append_assoc c.messages (m ∷ []) (ms ++ (last ∷ [])))

module _ {ℓ} {R : Type ℓ} (alloc : ℕ → Bool) (handle : Message → R) where
  -- The frames of one message that the receiver can hold, alone in a buffer.
  exchange_one :
      (rand : ℕ → ℕ) (m : Message) (ms : List Message) {b : Buffer}
      → length ms ≤ 2
      → All IsSendable (m ∷ ms)
      → CanHold alloc (length (texts (m ∷ ms)))
      → Holds b (encode_frames rand (m ∷ ms))
      → (b' : Buffer) × (exchange alloc handle 1 b
          ≡ exchanged
              (handle (record { opcode = joined 0 (m ∷ ms); text = texts (m ∷ ms) }) ∷ [])
              b')
        × Holds b' []
  exchange_one rand m ms {b} few good fits h =
      exchange-delivers alloc handle 1 (record { rand = rand; first = m; others = ms }) []
        (omega arith) (record { few = few; good = good; fits = fits }, tt)
        (subst (Holds b) (sym (append-nil (encode_frames rand (m ∷ ms)))) h)

  exchange_pieces :
      (rand : ℕ → ℕ) (ms : List Message) {b : Buffer}
      → 0 < length ms
      → length ms ≤ 3
      → All IsSendable ms
      → CanHold alloc (length (texts ms))
      → Holds b (encode_frames rand ms)
      → (b' : Buffer) × (exchange alloc handle 1 b
          ≡ exchanged (handle (record { opcode = joined 0 ms; text = texts ms }) ∷ []) b')
        × Holds b' []
  exchange_pieces rand [] some few good fits h = absurd (omega arith)
  exchange_pieces rand (m ∷ ms) some few good fits h =
      exchange_one rand m ms (omega arith) good fits h

  -- A connected client with nothing queued that is given one to three pieces, of which only the last is
  -- final, sends one text; and a receiver whose buffer holds that text and nothing else handles one
  -- message, whose text is the pieces' texts joined, and is left with nothing. It must be able to hold
  -- that text.
  pub send_pieces-exchange :
      (rand : ℕ → ℕ) (init : List Message) (last : Message) (c : WsClient) {b : Buffer}
      → c.connect ≡ true
      → c.messages ≡ []
      → length init ≤ 2
      → All IsSendable (init ++ (last ∷ []))
      → CanHold alloc (length (texts (init ++ (last ∷ []))))
      → Holds b (encode_frames rand (init ++ (last ∷ [])))
      → ((send_pieces rand init last c).sent
          ≡ c.sent ++ (encode_frames rand (init ++ (last ∷ [])) ∷ []))
        × (b' : Buffer) × (exchange alloc handle 1 b
            ≡ exchanged
                (handle (record {
                  opcode = joined 0 (init ++ (last ∷ []));
                  text = texts (init ++ (last ∷ []));
                })
                  ∷ [])
                b')
        × Holds b' []
  send_pieces-exchange rand init last c {b} hc hm few good fits h =
      let size = length-append init (last ∷ []) in
      let (b', e, left) =
        exchange_pieces rand (init ++ (last ∷ [])) (omega (arith, size)) (omega (arith, size)) good
          fits h in
      (
        send_pieces-sent rand init last c hc
            ∙ ap (λ t. c.sent ++ (encode_frames rand (t ++ (init ++ (last ∷ []))) ∷ [])) hm,
        b',
        e,
        left,
      )
