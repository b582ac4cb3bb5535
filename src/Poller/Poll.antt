-- ===== src/Poller/Poll.antt =====
-- `poll` of a valid poller: what it returns, and what the channels learn.
use second_gear.Common.{
  ℕ, zero, suc, ◌≡◌, refl, sym, ap, ◌∙◌, List, [], ◌∷◌, some, some-injective, ok, get_elem?,
  if◌then◌else◌, All,
}
use second_gear.Channel.{Flags, any, Channel}
use second_gear.Poller.{ChannelPtr, PollFd, fd_of, Poller, with_revents, poll, ready}
use second_gear.Poller.Valid.{IsValid}
use second_gear.Poller.Update.{IsValid-store}
use second_gear.Poller.Active.{
  active, count_active, marked, Known, Attended, get_active_channels-eq,
}
use second_gear.Poller.Marks.{marked-keeps, valid-Single, marked-at}

All-get_elem? {ℓ κ} :
    {A : Type ℓ} (P : A → Type κ) (l : List A)
    → ((i : ℕ) (x : A) → get_elem? l i ≡ some x → P x)
    → All P l
All-get_elem? P [] h = tt
All-get_elem? P (x ∷ l) h = (h 0 x refl, All-get_elem? P l (λ i y e. h (suc i) y e))

with_revents-found :
    (l : List PollFd) (rs : List Flags) (i : ℕ) (p : PollFd)
    → get_elem? (with_revents l rs) i ≡ some p
    → (q : PollFd) × (get_elem? l i ≡ some q) × (p.fd ≡ q.fd)
with_revents-found [] rs i p h = (p, h, refl)
with_revents-found (x ∷ l) [] i p h = (p, h, refl)
with_revents-found (x ∷ l) (r ∷ rs) zero p h =
    (x, refl, ap (λ (q : PollFd). q.fd) (sym (some-injective _ _ h)))
with_revents-found (x ∷ l) (r ∷ rs) (suc i) p h = with_revents-found l rs i p h

with_revents-kept :
    (l : List PollFd) (rs : List Flags) (i : ℕ) (q : PollFd)
    → get_elem? l i ≡ some q
    → (p : PollFd) × (get_elem? (with_revents l rs) i ≡ some p) × (p.fd ≡ q.fd)
with_revents-kept [] rs i q h = (q, h, refl)
with_revents-kept (x ∷ l) [] i q h = (q, h, refl)
with_revents-kept (x ∷ l) (r ∷ rs) zero q h =
    (record x { revents = r }, refl, ap (λ (e : PollFd). e.fd) (some-injective _ _ h))
with_revents-kept (x ∷ l) (r ∷ rs) (suc i) q h = with_revents-kept l rs i q h

-- The invariant does not depend on what `poll` wrote.
polled-IsValid :
    (s : Poller) (rs : List Flags)
    → IsValid s
    → IsValid (record s { pollfds = with_revents s.pollfds rs })
polled-IsValid s rs v = record {
  slots = λ i p h.
      let (q, found, same) = with_revents-found s.pollfds rs i p h in
      let slot = v.slots i q found in
      record {
        owner = slot.owner;
        mapped = ap (λ z. s.channels (fd_of z)) same ∙ slot.mapped;
        index = slot.index;
      };
  listed = λ fd ch h.
      let l = v.listed fd ch h in
      let (p, found, same) = with_revents-kept s.pollfds rs l.place l.entry l.found in
      record {
        fd_eq = l.fd_eq;
        place = l.place;
        entry = p;
        index = l.index;
        found = found;
        own = ap fd_of same ∙ l.own;
      };
}

-- The entry's channel is in the map, and has the entry's flags if there are any.
abbrev pub Told : Poller → Poller → PollFd → Type 0
Told s r p =
    (ch : ChannelPtr) × (s.channels (fd_of p.fd) ≡ some ch)
    × ((r.store ch).revents ≡ (if any p.revents then p.revents else (s.store ch).revents))

-- `poll` of a valid poller, when the system call gave no events to an ignored entry and returned the
-- number of entries with events: no assertion fails; it returns the channels of the entries with events,
-- in the order of the table, as a filter does; each of these channels has learnt the events of its own
-- entry, every other channel of the table has the events that it had; the map stays as it was, the table
-- has the new events, and the poller stays valid.
pub poll-Told :
    (s : Poller) (revents : List Flags)
    → IsValid s
    → All Attended (with_revents s.pollfds revents)
    → (r : Poller) × (poll s (ready revents (count_active (with_revents s.pollfds revents)))
        ≡ ok (active s.channels (with_revents s.pollfds revents), r))
      × IsValid r
      × (r.channels ≡ s.channels)
      × (r.pollfds ≡ with_revents s.pollfds revents)
      × All (Told s r) (with_revents s.pollfds revents)
unfolding poll
poll-Told s revents v attended =
    let polled : Poller = record s { pollfds = with_revents s.pollfds revents } in
    let pv = polled-IsValid s revents v in
    let known : All (Known s.channels) polled.pollfds =
      All-get_elem? (Known s.channels) polled.pollfds
        (λ i p h. ((pv.slots i p h).owner, (pv.slots i p h).mapped)) in
    (
      record polled { store = marked s.channels s.store polled.pollfds },
      get_active_channels-eq polled polled.pollfds _ refl known attended,
      IsValid-store polled (marked s.channels s.store polled.pollfds)
          (marked-keeps (λ (c : Channel). c.fd) (λ c r. refl) s.channels s.store polled.pollfds)
          (marked-keeps (λ (c : Channel). c.index) (λ c r. refl) s.channels s.store polled.pollfds)
          pv,
      refl,
      refl,
      All-get_elem? (Told s (record polled { store = marked s.channels s.store polled.pollfds }))
          polled.pollfds
          (λ i p h. (
            (pv.slots i p h).owner,
            (pv.slots i p h).mapped,
            marked-at s.channels s.store polled.pollfds (valid-Single polled pv) i p
                (pv.slots i p h).owner h (pv.slots i p h).mapped,
          )),
    )
