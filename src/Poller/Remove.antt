-- ===== src/Poller/Remove.antt =====
-- `removeChannel`: the last entry takes the place of the one that goes.
use second_gear.Common.{
  ℕ, ◌-◌, ◌≡◌, ◌≢◌, refl, sym, ap, ◌∙◌, none, some, ok, length, length-set, get_elem?, ℕ_discrete,
  ==_iff, ◌==◌, if◌then◌else◌, if-true, if-false,
}
use second_gear.Common.Int.{negsuc}
use second_gear.Channel.{Channel, none_event, all_disabled}
use second_gear.Poller.{
  ChannelPtr, PollFd, fd_of, Poller, registered, entry_at, pop_back, move_last, remove_at,
  remove_channel, disable_all,
}
use second_gear.Poller.Valid.{IsValid, put_self, put_ne, lt-get_elem?}
use second_gear.Poller.Events.{Registered, Changes, disable_all-Changes, found-Changes}
use second_gear.Poller.Entries.{KeepsEntries}
use second_gear.Poller.Swap.Entries.{popped-KeepsEntries, moved-KeepsEntries}
use second_gear.Poller.Swap.{
  popped, popped-IsValid, moved, moved-IsValid, moved_fd, moved_own, moved_events, moved_callbacks,
  move_last-eq, erased, idx_lt, length-pop_back, idx_pred, ==-no,
}

-- The channel's descriptor is gone from the map, no other is, and there is one entry fewer. The channel
-- keeps its index.
pub record Removes (s : Poller) (channel : ChannelPtr) (r : Poller) : Type 0 where
  pub valid : IsValid r
  pub gone : r.channels (s.store channel).fd ≡ none
  pub others : (f : ℕ) → f ≢ (s.store channel).fd → r.channels f ≡ s.channels f
  pub fewer : length r.pollfds ≡ length s.pollfds - 1
  pub fds : (p : ChannelPtr) → (r.store p).fd ≡ (s.store p).fd
  pub index : (r.store channel).index ≡ (s.store channel).index
  pub events : (p : ChannelPtr) → (r.store p).events ≡ (s.store p).events
  pub callbacks : (p : ChannelPtr) → (r.store p).read_callback ≡ (s.store p).read_callback
  pub entries : KeepsEntries s channel r

module _ (s : Poller) (channel : ChannelPtr) (g : Registered s channel) (idx : ℕ) (pfd : PollFd)
    (index : (s.store channel).index ≡ some idx) (found : get_elem? s.pollfds idx ≡ some pfd)
    (ignored : pfd.fd ≡ negsuc (s.store channel).fd) (silent : pfd.events ≡ none_event)
    (off : (s.store channel).events ≡ none_event) where
  own : fd_of pfd.fd ≡ (s.store channel).fd
  own = ap fd_of ignored

  remove_at-eq : remove_at s channel idx ≡ (
      if idx == length s.pollfds - 1
      then ok (record (erased s channel g idx pfd index found own) { pollfds = pop_back s.pollfds })
      else move_last (erased s channel g idx pfd index found own) idx)
  unfolding remove_at
  remove_at-eq = rw (
    found,
    entry_at,
    ignored,
    silent,
    off,
    (==_iff (s.store channel).fd (s.store channel).fd).1 refl,
  )

  remove_channel-eq : remove_channel s channel ≡ remove_at s channel idx
  unfolding remove_channel
  remove_channel-eq = rw (g.known, registered, (==_iff channel channel).1 refl, off, index)

  remove_at-Removes : (r : Poller) × (remove_at s channel idx ≡ ok r) × Removes s channel r
  remove_at-Removes = elim (ℕ_discrete idx (length s.pollfds - 1)) [
    | yes e ↦ (
      popped s channel g idx pfd index found own e,
      remove_at-eq ∙ if-true _ _ ((==_iff idx (length s.pollfds - 1)).1 e),
      record {
        valid = popped-IsValid s channel g idx pfd index found own e;
        gone = put_self s.channels _ none;
        others = put_ne s.channels _ none;
        fewer = length-pop_back s.pollfds;
        fds = λ p. refl;
        index = refl;
        events = λ p. refl;
        callbacks = λ p. refl;
        entries = popped-KeepsEntries s channel g idx pfd index found own e;
      },
    )
    | no ne ↦
        let (last, at_end) =
          lt-get_elem? s.pollfds (length s.pollfds - 1)
            (idx_pred _ (idx_lt s channel g idx pfd index found own)) in
        (
          moved s channel g idx pfd index found own ne last at_end,
          remove_at-eq
              ∙ if-false _ _ (==-no idx (length s.pollfds - 1) ne)
              ∙ move_last-eq s channel g idx pfd index found own ne last at_end,
          record {
            valid = moved-IsValid s channel g idx pfd index found own ne last at_end;
            gone = put_self s.channels _ none;
            others = put_ne s.channels _ none;
            fewer = length-pop_back _ ∙ ap (λ n. n - 1) (length-set s.pollfds idx last);
            fds = moved_fd s channel g idx pfd index found own ne last at_end;
            index = moved_own s channel g idx pfd index found own ne last at_end;
            events = moved_events s channel g idx pfd index found own ne last at_end;
            callbacks = moved_callbacks s channel g idx pfd index found own ne last at_end;
            entries = moved-KeepsEntries s channel g idx pfd index found own ne last at_end;
          },
        )
  ]

-- A channel that is in the map of a valid poller: disableAll and then removeChannel fail no assertion.
-- Afterwards the poller is valid, its map has lost the channel's descriptor and no other, its table is
-- one entry shorter, and no channel waits for other events than before the removal.
pub disable_all-Removes :
    (s : Poller) (channel : ChannelPtr)
    → Registered s channel
    → (off : Poller) × (r : Poller) × (disable_all s channel ≡ ok off)
      × (remove_channel off channel ≡ ok r)
      × Changes s channel (all_disabled (s.store channel)) off
      × Removes off channel r
disable_all-Removes s channel g =
    let (off, e, c) = disable_all-Changes s channel g in
    let index : (off.store channel).index ≡ some c.place =
      ap (λ (x : Channel). x.index) c.now ∙ c.index in
    let events = ap (λ (x : Channel). x.events) c.now in
    let fds = ap (λ (x : Channel). x.fd) c.now in
    let found = found-Changes s channel _ off c in
    let (r, f, d) =
      remove_at-Removes off channel c.registered c.place _ index found (ap negsuc (sym fds)) refl
        events in
    (
      off,
      r,
      e,
      remove_channel-eq off channel c.registered c.place _ index found (ap negsuc (sym fds)) refl
            events
          ∙ f,
      c,
      d,
    )
