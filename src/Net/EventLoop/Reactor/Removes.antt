-- ===== src/Net/EventLoop/Reactor/Removes.antt =====
-- Which removals go through, and what every round of the loop keeps.
use shero.Common.{
  ℕ, ◌≡◌, refl, ap, ◌∙◌, Bool, true, false, ◌&&◌, none, some, ◌==◌, ==_iff, arith, Bool-cases, inl,
  inr,
}
use shero.Net.Channel.{ChannelStatus, new, add, delete, is_none_event}
use shero.Net.Poller.{in_map, erase_fd, remove_in, remove_channel}
use shero.Net.EventLoop.Reactor.{Reactor, put, control, control_all, may_remove, removed, remove}
use shero.Net.EventLoop.Reactor.Refines.{
  is_mapped, entry, IsMirrored, erase_fd_self, erase_fd_other, placed-Fits,
}

-- The asserts of `removeChannel`, of the loop and of the poller, on a reactor that mirrors its channels.
abbrev pub can_remove : ℕ → Reactor → Bool
can_remove fd r =
    may_remove fd r && (is_mapped (r.channel fd).status && is_none_event (r.channel fd))

module _ (fd : ℕ) (r : Reactor) (h : IsMirrored r) where
  mapped_now : in_map (r.channel fd).fd r.map ≡ is_mapped (r.channel fd).status
  mapped_now = let f = h.fits fd in ap (λ j. in_map j r.map) f.own ∙ f.mapped

  -- The channel is new and in neither the map nor the interest list.
  abbrev gone : Reactor
  gone = record r {
    map = erase_fd (r.channel fd).fd r.map;
    channel = put fd (record (r.channel fd) { status = new }) r.channel;
    interest = put fd none r.interest;
  }

  gone-IsMirrored : IsMirrored gone
  gone-IsMirrored =
      let own = (h.fits fd).own in
      placed-Fits fd r (erase_fd (r.channel fd).fd r.map) (record (r.channel fd) { status = new })
        none h own (ap (λ j. in_map fd (erase_fd j r.map)) own ∙ erase_fd_self fd r.map)
        (λ k n. ap (λ j. in_map k (erase_fd j r.map)) own ∙ erase_fd_other k fd r.map n) refl

  -- By the status.
  removed_by :
      (s : ChannelStatus)
      → (r.channel fd).status ≡ s
      → is_mapped s ≡ true
      → (r' : Reactor) × (removed fd (remove_in s r.map (r.channel fd)) r ≡ some r') × IsMirrored r'
  unfolding remove_in control_all control
  removed_by new e y = cc
  removed_by add e y =
      let listed = (h.fits fd).listed ∙ ap (λ s. entry s (r.channel fd).event) e in
      (gone, rw listed refl, gone-IsMirrored)
  removed_by delete e y =
      let unlisted = (h.fits fd).listed ∙ ap (λ s. entry s (r.channel fd).event) e in
      let left = record r {
        map = erase_fd (r.channel fd).fd r.map;
        channel = put fd (record (r.channel fd) { status = new }) r.channel;
      } in
      (
        left,
        refl,
        record {
          fits = λ k. elim (Bool-cases (k == fd)) [
            | inl same ↦
                let g = gone-IsMirrored.fits k in
                let at_fd = (==_iff k fd).0 same in
                record {
                  own = g.own;
                  mapped = g.mapped;
                  listed = rw same (ap r.interest at_fd ∙ unlisted);
                }
            | inr apart ↦
                let g = gone-IsMirrored.fits k in
                record { own = g.own; mapped = g.mapped; listed = rw apart (h.fits k).listed }
          ];
          no_errors = h.no_errors;
        },
      )

  pub remove-IsMirrored :
      can_remove fd r ≡ true → (r' : Reactor) × (remove fd r ≡ some r') × IsMirrored r'
  unfolding remove remove_channel
  remove-IsMirrored y =
      let allowed : may_remove fd r ≡ true = ground (arith, y) in
      let mapped : is_mapped (r.channel fd).status ≡ true = ground (arith, y) in
      let quiet : is_none_event (r.channel fd) ≡ true = ground (arith, y) in
      let (r', e, f) = removed_by (r.channel fd).status refl mapped in
      (r', rw (allowed, mapped_now, mapped, quiet) e, f)

  pub remove_refused : can_remove fd r ≡ false → remove fd r ≡ none
  unfolding remove remove_channel
  remove_refused n = elim (Bool-cases (may_remove fd r)) [
    | inr late ↦ rw late refl
    | inl allowed ↦
        elim (Bool-cases (is_mapped (r.channel fd).status && is_none_event (r.channel fd))) [
          | inl y ↦ absurd (cc (n, let e : can_remove fd r ≡ true = rw (allowed, y) refl in e))
          | inr k ↦ rw (allowed, mapped_now, k) refl
        ]
  ]
