-- ===== src/WebSocket/Exchange.antt =====
-- The loop in which shero/net/websocket/WSServer.cc's `WSCommunication` and WSClient.cc's `onMessage`
-- take messages off a buffer. `alloc n`: a string can be resized to `n` bytes. `handle` is what is
-- called for a message; `R` is what it does, one of which is recorded for each call.
pub mod Delivers
pub mod Ends
use shero.Common.{ℕ, zero, suc, Bool, true, false, List, [], ◌∷◌, ltb, if◌then◌else◌}
use shero.Buffer.{Buffer, readable_bytes}
use shero.WebSocket.Frame.{Message, Decoded, null, message, throws, too_long, decode}

-- The loop ends, or the decoder throws or leaves the range that is followed, or the fuel is spent;
-- with what was done until then.
pub data Exchanged {ℓ} (R : Type ℓ) : Type ℓ where
  exchanged : List R → Buffer → Exchanged R
  interrupted : List R → Exchanged R
  out_of_range : List R → Exchanged R
  looping : List R → Exchanged R

module _ {ℓ} {R : Type ℓ} where
  unfoldable pub put_before : R → Exchanged R → Exchanged R
  put_before r (exchanged rs b) = exchanged (r ∷ rs) b
  put_before r (interrupted rs) = interrupted (r ∷ rs)
  put_before r (out_of_range rs) = out_of_range (r ∷ rs)
  put_before r (looping rs) = looping (r ∷ rs)

module _ {ℓ} {R : Type ℓ} (alloc : ℕ → Bool) (handle : Message → R) where
  -- The rest of a round, behind the decoder's return; `again` is the next round.
  unfoldable pub after_decode : (Buffer → Exchanged R) → Decoded → Exchanged R
  unfolding put_before
  after_decode again (null b) = exchanged [] b
  after_decode again (message m b) =
      if ltb 0 (readable_bytes b)
      then put_before (handle m) (again b)
      else exchanged (handle m ∷ []) b
  after_decode again throws = interrupted []
  after_decode again too_long = out_of_range []

  -- `do … while(buf->readableBytes() > 0)`.
  unfoldable pub exchange : ℕ → Buffer → Exchanged R
  unfolding after_decode
  exchange zero b = looping []
  exchange (suc fuel) b = after_decode (exchange fuel) (decode alloc b)
