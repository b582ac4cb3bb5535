-- ===== src/Poller/Asks.antt =====
-- What `enableReading()`, `enableWriting()`, `disableWriting()` and `disableAll()` make `poll` ask for.
use second_gear.Common.{
  ℕ, ◌≡◌, ◌≢◌, refl, sym, ap, ◌∙◌, Bool, true, false, not, some, some-injective, Result, ok,
  get_elem?, get_elem?-set_ne, if◌then◌else◌,
}
use second_gear.Common.Int.{ℤ, negsuc}
use second_gear.Channel.{Flags, any, read_event, write_event, none_event}
use second_gear.Poller.{
  ChannelPtr, PollFd, Poller, updated, enable_reading, enable_writing, disable_writing, disable_all,
}
use second_gear.Poller.Events.{
  Registered, Makes, found-Changes, enable_reading-Changes, enable_writing-Changes,
  disable_writing-Changes, disable_all-Changes,
}

-- The channel at `channel` waits for `events`, and so does its entry, at `place` and with the descriptor
-- `fd`; the rest is as it was.
pub record Asks (s : Poller) (channel : ChannelPtr) (place : ℕ) (events : Flags) (fd : ℤ)
    (r : Poller) : Type 0 where
  pub registered : Registered r channel
  pub now : r.store channel ≡ record (s.store channel) { events = events }
  pub entry :
      get_elem? r.pollfds place ≡ some (record { fd = fd; events = events; revents = none_event })
  pub others : (p : ChannelPtr) → p ≢ channel → r.store p ≡ s.store p
  pub entries : (i : ℕ) → i ≢ place → get_elem? r.pollfds i ≡ get_elem? s.pollfds i
  pub channels : r.channels ≡ s.channels

abbrev pub Asked : Poller → ChannelPtr → ℕ → Flags → ℤ → Result Poller → Type 0
Asked s channel place events fd call =
    (r : Poller) × (call ≡ ok r) × Asks s channel place events fd r

-- The events of a channel but `POLLOUT`.
abbrev but_write : Flags → Flags
but_write e = record e { pollout = false }

module _ {s : Poller} {channel : ChannelPtr} {place : ℕ} {entry : PollFd}
    (index : (s.store channel).index ≡ some place)
    (found : get_elem? s.pollfds place ≡ some entry) where
  Changes-Asks :
      {call : Result Poller} (events : Flags) (fd : ℤ)
      → updated entry (record (s.store channel) { events = events })
        ≡ record { fd = fd; events = events; revents = none_event }
      → Makes call s channel (record (s.store channel) { events = events })
      → Asked s channel place events fd call
  Changes-Asks events fd same (r, e, c) =
      let here : c.place ≡ place = some-injective _ _ (sym c.index ∙ index) in
      let old : c.entry ≡ entry =
        some-injective _ _ (sym c.found ∙ ap (get_elem? s.pollfds) here ∙ found) in
      (
        r,
        e,
        record {
          registered = c.registered;
          now = c.now;
          entry =
              ap (get_elem? r.pollfds) (sym here)
              ∙ found-Changes s channel _ r c
              ∙ ap (λ p. some (updated p (record (s.store channel) { events = events }))) old
              ∙ ap some same;
          others = c.others;
          entries = λ i n.
              ap (λ l. get_elem? l i) c.pollfds
              ∙ get_elem?-set_ne s.pollfds c.place i _ (λ h. n (sym h ∙ here));
          channels = c.channels;
        },
      )

if-not {ℓ} : {A : Type ℓ} (b : Bool) (x y : A) → (if not b then x else y) ≡ (if b then y else x)
if-not true x y = refl
if-not false x y = refl

-- A channel that is in the map of a valid poller, with its index and the entry at it: none of
-- enableReading, enableWriting, disableWriting and disableAll fails an assertion. Both the channel's
-- events and those of the entry are afterwards POLLIN and POLLPRI, or POLLOUT, or those of the channel
-- before but POLLOUT, or none, and nothing has happened in the entry. Its descriptor is as it was; only
-- where no event is left, it is -fd-1 for the channel's fd. The channel is as it was but for its events,
-- the other entries, the other channels and the map are as they were, and the poller is valid.
pub events-Asks :
    (s : Poller) (channel : ChannelPtr) (place : ℕ) (entry : PollFd)
    → Registered s channel
    → (s.store channel).index ≡ some place
    → get_elem? s.pollfds place ≡ some entry
    → Asked s channel place read_event entry.fd (enable_reading s channel)
      × Asked s channel place write_event entry.fd (enable_writing s channel)
      × Asked s channel place
          (but_write (s.store channel).events)
          (if any (but_write (s.store channel).events)
            then entry.fd
            else negsuc (s.store channel).fd)
          (disable_writing s channel)
      × Asked s channel place none_event (negsuc (s.store channel).fd) (disable_all s channel)
events-Asks s channel place entry g index found = (
  Changes-Asks index found read_event entry.fd refl (enable_reading-Changes s channel g),
  Changes-Asks index found write_event entry.fd refl (enable_writing-Changes s channel g),
  Changes-Asks index found (but_write (s.store channel).events) _
      (ap
        (λ (fd : ℤ). record {
          fd = fd;
          events = but_write (s.store channel).events;
          revents = none_event;
        })
        (if-not (any (but_write (s.store channel).events)) _ _))
      (disable_writing-Changes s channel g),
  Changes-Asks index found none_event _ refl (disable_all-Changes s channel g),
)
