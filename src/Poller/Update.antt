-- ===== src/Poller/Update.antt =====
-- `updateChannel`: a new channel gets an entry, and the entry of an old one is changed.
use second_gear.Common.{
  ℕ, ◌≡◌, refl, sym, ap, ◌∙◌, inl, inr, none, some, some-injective, ok, length, get_elem?, set,
  get_elem?-set_self, get_elem?-set_ne, ℕ_discrete, subst, true, ==_iff, Bool-cases, none-some,
  ◌==◌,
}
use second_gear.Common.Int.{pos}
use second_gear.Channel.{Channel, is_none_event, none_event}
use second_gear.Poller.{
  ChannelPtr, PollFd, fd_of, Poller, registered, add_new, updated, update_existing, update_channel,
  entry_at,
}
use second_gear.Poller.Valid.{
  Slot, Listed, IsValid, put_self, put_ne, get_elem?-lt, get_elem?-snoc, get_elem?-snoc_old,
  get_elem?-snoc_new,
}

-- The invariant does not depend on what channels wait for.
pub IsValid-store :
    (s : Poller) (store : ChannelPtr → Channel)
    → ((p : ChannelPtr) → (store p).fd ≡ (s.store p).fd)
    → ((p : ChannelPtr) → (store p).index ≡ (s.store p).index)
    → IsValid s
    → IsValid (record s { store = store })
IsValid-store s store fds indices v = record {
  slots = λ i p h. record {
    owner = (v.slots i p h).owner;
    mapped = (v.slots i p h).mapped;
    index = indices _ ∙ (v.slots i p h).index;
  };
  listed = λ fd ch h. record {
    fd_eq = fds ch ∙ (v.listed fd ch h).fd_eq;
    place = (v.listed fd ch h).place;
    entry = (v.listed fd ch h).entry;
    index = indices ch ∙ (v.listed fd ch h).index;
    found = (v.listed fd ch h).found;
    own = (v.listed fd ch h).own;
  };
}

module _ (s : Poller) (channel : ChannelPtr) (v : IsValid s)
    (fresh : (s.store channel).index ≡ none) (free : s.channels (s.store channel).fd ≡ none) where
  -- Channels of the map keep their index, since the new one had none.
  old_store :
      (other : ChannelPtr) {i : ℕ}
      → (s.store other).index ≡ some i
      → (add_new s channel).store other ≡ s.store other
  old_store other h =
      put_ne s.store channel _ other (λ same.
        none-some (s.store channel).index fresh (ap (λ o. (s.store o).index) (sym same) ∙ h))

  old_channels :
      (fd : ℕ) {other : ChannelPtr}
      → s.channels fd ≡ some other
      → (add_new s channel).channels fd ≡ some other
  old_channels fd h =
      put_ne s.channels _ _ fd
        (λ same. none-some (s.channels (s.store channel).fd) free (ap s.channels (sym same) ∙ h))
      ∙ h

  new_slot :
      (i : ℕ) (p : PollFd)
      → get_elem? (add_new s channel).pollfds i ≡ some p
      → Slot (add_new s channel) i p
  new_slot i p h = elim (get_elem?-snoc s.pollfds _ i h) [
    | inl old ↦ record {
      owner = (v.slots i p old).owner;
      mapped = old_channels _ (v.slots i p old).mapped;
      index =
          ap (λ (c : Channel). c.index) (old_store _ (v.slots i p old).index)
          ∙ (v.slots i p old).index;
    }
    | inr (here, same) ↦ record {
      owner = channel;
      mapped =
          ap (λ (e : PollFd). (add_new s channel).channels (fd_of e.fd)) (sym same)
          ∙ put_self s.channels (s.store channel).fd (some channel);
      index = ap (λ (c : Channel). c.index) (put_self s.store channel _) ∙ ap some (sym here);
    }
  ]

  added_listed : Listed (add_new s channel) (s.store channel).fd channel
  added_listed = record {
    fd_eq = ap (λ (c : Channel). c.fd) (put_self s.store channel _);
    place = length s.pollfds;
    entry = record {
      fd = pos (s.store channel).fd;
      events = (s.store channel).events;
      revents = none_event;
    };
    index = ap (λ (c : Channel). c.index) (put_self s.store channel _);
    found = get_elem?-snoc_new s.pollfds _;
    own = refl;
  }

  kept_listed :
      (fd : ℕ) (other : ChannelPtr)
      → s.channels fd ≡ some other
      → Listed (add_new s channel) fd other
  kept_listed fd other h =
      let l = v.listed fd other h in
      record {
        fd_eq = ap (λ (c : Channel). c.fd) (old_store other l.index) ∙ l.fd_eq;
        place = l.place;
        entry = l.entry;
        index = ap (λ (c : Channel). c.index) (old_store other l.index) ∙ l.index;
        found = get_elem?-snoc_old s.pollfds _ l.place l.found;
        own = l.own;
      }

  new_listed :
      (fd : ℕ) (other : ChannelPtr)
      → (add_new s channel).channels fd ≡ some other
      → Listed (add_new s channel) fd other
  new_listed fd other h = elim (ℕ_discrete fd (s.store channel).fd) [
    | yes here ↦
        let itself : channel ≡ other = some-injective _ _ (
          sym (put_self s.channels (s.store channel).fd (some channel))
          ∙ ap (add_new s channel).channels (sym here)
          ∙ h) in
        subst (Listed (add_new s channel) fd) itself
          (subst (λ f. Listed (add_new s channel) f channel) (sym here) added_listed)
    | no there ↦ kept_listed fd other (sym (put_ne s.channels _ (some channel) fd there) ∙ h)
  ]

  -- A channel that the poller does not know, with a descriptor that it does not know: the invariant
  -- holds with it, and it is in the map.
  pub update_channel-new :
      (update_channel s channel ≡ ok (add_new s channel))
      × IsValid (add_new s channel)
      × Listed (add_new s channel) (s.store channel).fd channel
  unfolding update_channel
  update_channel-new =
      (rw (fresh, update_channel), record { slots = new_slot; listed = new_listed }, added_listed)

module _ (s : Poller) (channel : ChannelPtr) (v : IsValid s)
    (known : s.channels (s.store channel).fd ≡ some channel) where
  abbrev at : Listed s (s.store channel).fd channel
  at = v.listed (s.store channel).fd channel known

  abbrev changed_entry : Poller
  changed_entry = record s { pollfds = set s.pollfds at.place (updated at.entry (s.store channel)) }

  fd_of-updated : fd_of (updated at.entry (s.store channel)).fd ≡ fd_of at.entry.fd
  fd_of-updated = elim (Bool-cases (is_none_event (s.store channel))) [
    | inl ignored ↦ rw ignored (sym at.own)
    | inr watched ↦ rw watched
  ]

  own-eq : (fd_of at.entry.fd == (s.store channel).fd) ≡ true
  own-eq = (==_iff (fd_of at.entry.fd) (s.store channel).fd).1 at.own

  same-eq : (channel == channel) ≡ true
  same-eq = (==_iff channel channel).1 refl

  update_existing-eq : update_existing s channel at.place ≡ ok changed_entry
  unfolding update_existing
  update_existing-eq = rw (known, registered, same-eq, at.found, entry_at, own-eq)

  set_here : get_elem? changed_entry.pollfds at.place ≡ some (updated at.entry (s.store channel))
  set_here = get_elem?-set_self s.pollfds at.place _ (get_elem?-lt s.pollfds at.place at.found)

  slot_here : (p : PollFd) → updated at.entry (s.store channel) ≡ p → Slot changed_entry at.place p
  slot_here p same = record {
    owner = channel;
    mapped =
        ap (λ (e : PollFd). s.channels (fd_of e.fd)) (sym same)
        ∙ ap s.channels (fd_of-updated ∙ at.own)
        ∙ known;
    index = at.index;
  }

  changed_slot :
      (i : ℕ) (p : PollFd) → get_elem? changed_entry.pollfds i ≡ some p → Slot changed_entry i p
  changed_slot i p h = elim (ℕ_discrete i at.place) [
    | yes here ↦
        subst (λ j. Slot changed_entry j p) (sym here)
          (slot_here p (
            some-injective _ _
              (sym set_here ∙ ap (get_elem? changed_entry.pollfds) (sym here) ∙ h)))
    | no there ↦
        let old =
          v.slots i p (sym (get_elem?-set_ne s.pollfds at.place i _ (λ e. there (sym e))) ∙ h) in
        record { owner = old.owner; mapped = old.mapped; index = old.index }
  ]

  changed_listed :
      (fd : ℕ) (other : ChannelPtr) → s.channels fd ≡ some other → Listed changed_entry fd other
  changed_listed fd other h =
      let l = v.listed fd other h in
      elim (ℕ_discrete l.place at.place) [
        | yes here ↦
            let same : at.entry ≡ l.entry =
              some-injective _ _ (sym at.found ∙ ap (get_elem? s.pollfds) (sym here) ∙ l.found) in
            record {
              fd_eq = l.fd_eq;
              place = at.place;
              entry = updated at.entry (s.store channel);
              index = l.index ∙ ap some here;
              found = set_here;
              own = fd_of-updated ∙ ap (λ (e : PollFd). fd_of e.fd) same ∙ l.own;
            }
        | no there ↦ record {
          fd_eq = l.fd_eq;
          place = l.place;
          entry = l.entry;
          index = l.index;
          found = get_elem?-set_ne s.pollfds at.place l.place _ (λ e. there (sym e)) ∙ l.found;
          own = l.own;
        }
      ]

  -- A channel of the map: no assertion fails, only its entry changes, and the invariant holds.
  pub update_channel-known :
      (i : ℕ) × (p : PollFd) × ((s.store channel).index ≡ some i)
      × (get_elem? s.pollfds i ≡ some p)
      × (fd_of p.fd ≡ (s.store channel).fd)
      × (update_channel s channel
          ≡ ok (record s { pollfds = set s.pollfds i (updated p (s.store channel)) }))
      × IsValid (record s { pollfds = set s.pollfds i (updated p (s.store channel)) })
  unfolding update_channel
  update_channel-known = (
    at.place,
    at.entry,
    at.index,
    at.found,
    at.own,
    rw (at.index, update_channel) update_existing-eq,
    record { slots = changed_slot; listed = changed_listed },
  )
