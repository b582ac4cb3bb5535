-- ===== src/Poller/Events.antt =====
-- `enableReading()`, `enableWriting()`, `disableWriting()` and `disableAll()` of a channel that the
-- poller knows.
use second_gear.Common.{
  ℕ, ◌≡◌, ◌≢◌, refl, sym, ap, ◌∙◌, some, none, some-injective, Result, ok, err, assertion,
  get_elem?, set, get_elem?-set_self, ℕ_discrete, subst,
}
use second_gear.Common.Int.{negsuc}
use second_gear.Channel.{
  Channel, read_event, reading_enabled, writing_enabled, writing_disabled, all_disabled,
}
use second_gear.Poller.{
  ChannelPtr, PollFd, fd_of, Poller, put, updated, update_channel, update_existing, registered,
  enable_reading, enable_writing, disable_writing, disable_all,
}
use second_gear.Poller.Valid.{IsValid, put_self, put_ne, get_elem?-lt}
use second_gear.Poller.Update.{IsValid-store, update_channel-known}

-- A valid poller that has the channel in its map.
pub record Registered (s : Poller) (channel : ChannelPtr) : Type 0 where
  pub valid : IsValid s
  pub known : s.channels (s.store channel).fd ≡ some channel

-- The channel has become `c`, its entry is that of `c`, and the rest is as it was.
pub record Changes (s : Poller) (channel : ChannelPtr) (c : Channel) (r : Poller) : Type 0 where
  pub registered : Registered r channel
  pub now : r.store channel ≡ c
  pub others : (p : ChannelPtr) → p ≢ channel → r.store p ≡ s.store p
  pub channels : r.channels ≡ s.channels
  pub place : ℕ
  pub entry : PollFd
  pub found : get_elem? s.pollfds place ≡ some entry
  pub own : fd_of entry.fd ≡ (s.store channel).fd
  pub index : (s.store channel).index ≡ some place
  pub pollfds : r.pollfds ≡ set s.pollfds place (updated entry c)

abbrev pub Makes : Result Poller → Poller → ChannelPtr → Channel → Type 0
Makes call s channel c = (r : Poller) × (call ≡ ok r) × Changes s channel c r

module _ (s : Poller) (channel : ChannelPtr) (g : Registered s channel) (c : Channel)
    (fd : c.fd ≡ (s.store channel).fd) (index : c.index ≡ (s.store channel).index) where
  abbrev stored : Poller
  stored = record s { store = put s.store channel c }

  here : stored.store channel ≡ c
  here = put_self s.store channel c

  same_fd : (p : ChannelPtr) → (stored.store p).fd ≡ (s.store p).fd
  same_fd p = elim (ℕ_discrete p channel) [
    | yes e ↦
        subst (λ q. (stored.store q).fd ≡ (s.store q).fd) (sym e)
          (ap (λ (d : Channel). d.fd) here ∙ fd)
    | no e ↦ ap (λ (d : Channel). d.fd) (put_ne s.store channel c p e)
  ]

  same_index : (p : ChannelPtr) → (stored.store p).index ≡ (s.store p).index
  same_index p = elim (ℕ_discrete p channel) [
    | yes e ↦
        subst (λ q. (stored.store q).index ≡ (s.store q).index) (sym e)
          (ap (λ (d : Channel). d.index) here ∙ index)
    | no e ↦ ap (λ (d : Channel). d.index) (put_ne s.store channel c p e)
  ]

  pub update_channel-Changes : Makes (update_channel stored channel) s channel c
  update_channel-Changes =
      let known : stored.channels (stored.store channel).fd ≡ some channel =
        ap s.channels (same_fd channel) ∙ g.known in
      let (i, p, at, found, own, eq, valid) =
        update_channel-known stored channel
          (IsValid-store s stored.store same_fd same_index g.valid) known in
      (
        record stored { pollfds = set s.pollfds i (updated p (stored.store channel)) },
        eq,
        record {
          registered = record { valid = valid; known = known };
          now = here;
          others = put_ne s.store channel c;
          channels = refl;
          place = i;
          entry = p;
          found = found;
          own = own ∙ same_fd channel;
          index = sym (same_index channel) ∙ at;
          pollfds = ap (λ d. set s.pollfds i (updated p d)) here;
        },
      )

module _ (s : Poller) (channel : ChannelPtr) (g : Registered s channel) where
  pub enable_reading-Changes :
      Makes (enable_reading s channel) s channel (reading_enabled (s.store channel))
  unfolding enable_reading
  enable_reading-Changes =
      update_channel-Changes s channel g (reading_enabled (s.store channel)) refl refl

  pub enable_writing-Changes :
      Makes (enable_writing s channel) s channel (writing_enabled (s.store channel))
  unfolding enable_writing
  enable_writing-Changes =
      update_channel-Changes s channel g (writing_enabled (s.store channel)) refl refl

  pub disable_writing-Changes :
      Makes (disable_writing s channel) s channel (writing_disabled (s.store channel))
  unfolding disable_writing
  disable_writing-Changes =
      update_channel-Changes s channel g (writing_disabled (s.store channel)) refl refl

  pub disable_all-Changes : Makes (disable_all s channel) s channel (all_disabled (s.store channel))
  unfolding disable_all
  disable_all-Changes =
      update_channel-Changes s channel g (all_disabled (s.store channel)) refl refl

-- The entry of a channel after a change.
pub found-Changes :
    (s : Poller) (channel : ChannelPtr) (c : Channel) (r : Poller) (g : Changes s channel c r)
    → get_elem? r.pollfds g.place ≡ some (updated g.entry c)
found-Changes s channel c r g =
    ap (λ l. get_elem? l g.place) g.pollfds
    ∙ get_elem?-set_self s.pollfds g.place _ (get_elem?-lt s.pollfds g.place g.found)

-- A second change is of the entry that the first one left.
entry-Changes :
    (s : Poller) (channel : ChannelPtr) (c : Channel) (r : Poller) (g : Changes s channel c r)
    → c.index ≡ (s.store channel).index
    → (d : Channel) (t : Poller) (h : Changes r channel d t) → h.entry ≡ updated g.entry c
entry-Changes s channel c r g same d t h =
    let places : h.place ≡ g.place =
      some-injective _ _ (sym h.index ∙ ap (λ (x : Channel). x.index) g.now ∙ same ∙ g.index) in
    some-injective _ _
      (sym h.found ∙ ap (get_elem? r.pollfds) places ∙ found-Changes s channel c r g)

-- After disableAll of a channel that is in the map of a valid poller, enableReading succeeds and the
-- channel waits for input again, but its entry still has a negative descriptor, so that the system call
-- `poll` goes on ignoring it.
pub disable_all-Ignored :
    (s : Poller) (channel : ChannelPtr)
    → Registered s channel
    → (off : Poller) × (on : Poller) × (i : ℕ) × (p : PollFd) × (disable_all s channel ≡ ok off)
      × (enable_reading off channel ≡ ok on)
      × ((on.store channel).events ≡ read_event)
      × (get_elem? on.pollfds i ≡ some p)
      × (p.events ≡ read_event)
      × (p.fd ≡ negsuc (s.store channel).fd)
disable_all-Ignored s channel g =
    let (off, e, c) = disable_all-Changes s channel g in
    let (on, f, d) = enable_reading-Changes off channel c.registered in
    (
      off,
      on,
      d.place,
      updated d.entry (reading_enabled (off.store channel)),
      e,
      f,
      ap (λ (x : Channel). x.events) d.now,
      found-Changes off channel _ on d,
      refl,
      ap (λ (x : PollFd). x.fd) (entry-Changes s channel _ off c refl _ on d),
    )

-- `enableReading()` in two steps.
pub enable_reading-update :
    (s : Poller) (channel : ChannelPtr)
    → enable_reading s channel
      ≡ update_channel
          (record s { store = put s.store channel (reading_enabled (s.store channel)) })
          channel
unfolding enable_reading
enable_reading-update s channel = refl

-- A channel that has an index and that the map has lost is taken for one that the poller has.
update_channel-stale :
    (s : Poller) (channel : ChannelPtr) {place : ℕ}
    → (s.store channel).index ≡ some place
    → s.channels (s.store channel).fd ≡ none
    → update_channel s channel ≡ err assertion
unfolding update_channel update_existing
update_channel-stale s channel index gone =
    rw (index, update_channel, gone, update_existing, registered)

pub enable_writing-stale :
    (s : Poller) (channel : ChannelPtr) {place : ℕ}
    → (s.store channel).index ≡ some place
    → s.channels (s.store channel).fd ≡ none
    → enable_writing s channel ≡ err assertion
unfolding enable_writing
enable_writing-stale s channel index gone =
    let c = writing_enabled (s.store channel) in
    let here = put_self s.store channel c in
    update_channel-stale (record s { store = put s.store channel c }) channel
      (ap (λ (d : Channel). d.index) here ∙ index)
      (ap (λ (d : Channel). s.channels d.fd) here ∙ gone)
