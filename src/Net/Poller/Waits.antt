-- ===== src/Net/Poller/Waits.antt =====
-- The waiting of the poller, shero/net/EPollPoller.cc: what one `epoll_wait` after the other makes active.
use shero.Common.{
  ℕ, ◌≤◌, ◌<◌, ◌≡◌, refl, sym, ap, ◌∙◌, true, false, Option, none, some, List, [], ◌∷◌, ◌++◌,
  append_assoc, append-nil, length, leb, ◌==◌, arith, map, All,
}
use shero.Net.Channel.{Channel}
use shero.Net.Poller.{poll, fill_active_channels, epoll_event_size}

-- What was reported.
abbrev pub events_of : Option (List (Channel × ℕ)) → List (Channel × ℕ)
events_of none = []
events_of (some reported) = reported

-- A channel with what was reported for it.
abbrev pub with_events : Channel × ℕ → Channel
with_events (c, events) = record c { revents = events }

fill_active_channels_lem :
    (reported : List (Channel × ℕ)) (active : List Channel)
    → fill_active_channels reported active ≡ active ++ map with_events reported
unfolding fill_active_channels
fill_active_channels_lem [] active = sym (append-nil active)
fill_active_channels_lem ((c, events) ∷ reported) active =
    fill_active_channels_lem reported (active ++ (record c { revents = events } ∷ []))
    ∙ append_assoc active (record c { revents = events } ∷ []) (map with_events reported)

-- What a wait made active, put in front of what the later ones do.
unfoldable pub put_active :
    List Channel → Option (ℕ × List (List Channel)) → Option (ℕ × List (List Channel))
put_active active none = none
put_active active (some (size, rest)) = some (size, active ∷ rest)

unfoldable pub after_poll :
    Option (ℕ × List Channel)
    → (ℕ → Option (ℕ × List (List Channel)))
    → Option (ℕ × List (List Channel))
unfolding put_active
after_poll none again = none
after_poll (some (size, active)) again = put_active active (again size)

-- One wait after the other, as `loop` makes them: it clears the active channels before each.
unfoldable pub polls : ℕ → ℕ → List (Option (List (Channel × ℕ))) → Option (ℕ × List (List Channel))
unfolding after_poll
polls vector_size size [] = some (size, [])
polls vector_size size (o ∷ os) =
    after_poll (poll vector_size size o []) (λ size'. polls vector_size size' os)

poll_small :
    (vector_size : ℕ) (o : Option (List (Channel × ℕ)))
    → epoll_event_size < vector_size
    → length (events_of o) ≤ epoll_event_size
    → poll vector_size epoll_event_size o []
      ≡ some (epoll_event_size, map with_events (events_of o))
unfolding poll
poll_small vector_size none h k = refl
poll_small vector_size (some []) h k = refl
poll_small vector_size (some (e ∷ reported)) h k =
    let fits : leb (length (e ∷ reported)) epoll_event_size ≡ true = ground (arith, k) in
    let other : (length (e ∷ reported) == vector_size) ≡ false = ground (arith, h, k) in
    rw (fits, other)
      (ap (λ t. some (epoll_event_size, t)) (fill_active_channels_lem (e ∷ reported) []))

-- Where the size of the vector object is over 16 and `epoll_wait` reports no more than the room it was
-- given, no assert fails however often the loop waits, each wait makes exactly the reported channels
-- active, in order and with what was reported, and the array never grows from its 16 events.
pub polls_lem :
    (vector_size : ℕ) (os : List (Option (List (Channel × ℕ))))
    → epoll_event_size < vector_size
    → All (λ o. length (events_of o) ≤ epoll_event_size) os
    → polls vector_size epoll_event_size os
      ≡ some (epoll_event_size, map (λ o. map with_events (events_of o)) os)
unfolding polls
polls_lem vector_size [] h ks = refl
polls_lem vector_size (o ∷ os) h ks =
    rw (poll_small vector_size o h ks.0)
      (ap (put_active (map with_events (events_of o))) (polls_lem vector_size os h ks.1))
