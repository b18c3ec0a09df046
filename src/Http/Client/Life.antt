-- ===== src/Http/Client/Life.antt =====
-- A request of shero/net/http/client/HttpClient.cc from its connection to its answer.
use shero.Common.{
  ℕ, ◌≡◌, ◌≢◌, refl, ap, sym, ◌∙◌, true, false, Option, none, some, List, [], ◌∷◌, ◌++◌,
  append_assoc, append-nil, if◌then◌else◌, arith,
}
use shero.Common.Bytes.{Bytes}
use shero.Http.Message.{HttpRequest, dump_request}
use shero.Http.Client.{
  HttpClient, new_client, disconnect, send_request, finish_with, post_result, on_message,
  on_messages, on_connection,
}
use shero.Http.Client.Response.{ResponseParser, Parsed, parsed, null, looping, parse_response}

-- What is kept of a verdict, and the posts of the semaphore for it: nothing where there is none.
abbrev pub verdict_on : Parsed → Option Parsed
verdict_on looping = none
verdict_on (parsed res) = some (parsed res)
verdict_on null = some null

abbrev pub posts_of : Parsed → ℕ
posts_of looping = 0
posts_of (parsed res) = 1
posts_of null = 1

posted :
    (r : Parsed) (c : HttpClient)
    → c.res ≡ none
    → c.posts ≡ 0
    → ((post_result r c).sent ≡ c.sent)
      × ((post_result r c).res ≡ verdict_on r)
      × ((post_result r c).posts ≡ posts_of r)
unfolding post_result disconnect
posted looping c h z = (refl, h, z)
posted (parsed res) c h z = (refl, refl, omega (arith, z))
posted null c h z = (refl, refl, omega (arith, z))

module _ {P : Type 0} (rp : ResponseParser P) (fuel : ℕ) where
  on_message-connected :
      (m : Bytes) (c : HttpClient)
      → c.connect ≡ true
      → on_message rp fuel m c ≡ record c { res_http = c.res_http ++ (m ∷ []) }
  unfolding on_message
  on_message-connected m c h =
      ap
        (λ b.
          if b
          then record c { res_http = c.res_http ++ (m ∷ []) }
          else finish_with rp fuel c.res_http c)
        h

  -- While the client is connected, what comes is kept in order.
  on_messages-res_http :
      (ms : List Bytes) (c : HttpClient)
      → c.connect ≡ true
      → on_messages rp fuel ms c ≡ record c { res_http = c.res_http ++ ms }
  unfolding on_messages
  on_messages-res_http [] c h =
      let at_end : List Bytes → HttpClient = λ r. record c { res_http = r } in
      ap at_end (sym (append-nil c.res_http))
  on_messages-res_http (m ∷ ms) c h =
      let kept : HttpClient = record c { res_http = c.res_http ++ (m ∷ []) } in
      let at_end : List Bytes → HttpClient = λ r. record c { res_http = r } in
      ap (on_messages rp fuel ms) (on_message-connected m c h)
      ∙ on_messages-res_http ms kept h
      ∙ ap at_end (append_assoc c.res_http (m ∷ []) ms)

  -- The verdict on what was received, and the posts of the semaphore for it.
  abbrev pub verdict : List Bytes → Option Parsed
  verdict [] = none
  verdict (m ∷ ms) = verdict_on (parse_response rp fuel m ms)

  abbrev pub posts_for : List Bytes → ℕ
  posts_for [] = 0
  posts_for (m ∷ ms) = posts_of (parse_response rp fuel m ms)

  -- A request whose connection comes up, brings the messages `ms` and goes down: the request is sent
  -- once, the response is parsed from `ms` in the order they came, and where the parser returns the
  -- semaphore is posted once, but not at all where no message came.
  pub request_run :
      (req : HttpRequest) (ms : List Bytes)
      → let c =
          on_connection rp fuel false
            (on_messages rp fuel ms (on_connection rp fuel true (new_client req))) in
        (c.sent ≡ dump_request req ∷ []) × (c.res ≡ verdict ms) × (c.posts ≡ posts_for ms)
  unfolding on_connection on_message send_request new_client finish_with
  request_run req ms =
      let up = on_connection rp fuel true (new_client req) in
      rw (on_messages-res_http ms up refl) (go ms)
    where
      go :
          (ms : List Bytes)
          → let c =
              on_connection rp fuel false
                (record (on_connection rp fuel true (new_client req)) { res_http = ms }) in
            (c.sent ≡ dump_request req ∷ []) × (c.res ≡ verdict ms) × (c.posts ≡ posts_for ms)
      go [] = (refl, refl, refl)
      go (m ∷ ms) = posted (parse_response rp fuel m ms) _ refl refl

-- A verdict that was come to is what is kept, with one post.
pub verdict_on_ended : (r : Parsed) → r ≢ looping → (verdict_on r ≡ some r) × (posts_of r ≡ 1)
verdict_on_ended (parsed res) h = (refl, refl)
verdict_on_ended null h = (refl, refl)
verdict_on_ended looping h = absurd (h refl)
