-- ===== src/Poller/Swap.antt =====
-- The table without an entry: the last one goes, or takes the place of the one that goes.
pub mod Entries
use second_gear.Common.{
  ℕ, ◌-◌, ◌≡◌, ◌≢◌, ◌<◌, sym, ap, ◌∙◌, inl, inr, List, none, some, some-injective, ok, arith,
  length, length-set, length-take, min, get_elem?, set, get_elem?-set_self, get_elem?-set_ne,
  ℕ_discrete, subst, false, ==_iff, ◌==◌, none-some, Bool-cases,
}
use second_gear.Channel.{Channel}
use second_gear.Poller.{ChannelPtr, PollFd, fd_of, Poller, put, pop_back, move_last}
use second_gear.Poller.Valid.{
  Slot, Listed, IsValid, put_self, put_ne, get_elem?-lt, get_elem?-take, take-get_elem?,
}
use second_gear.Poller.Events.{Registered}

pub length-pop_back : (l : List PollFd) → length (pop_back l) ≡ length l - 1
length-pop_back l = length-take (length l - 1) l ∙ min_pred (length l)
  where
    min_pred : (n : ℕ) → min (n - 1) n ≡ n - 1
    min_pred n = omega arith

pub idx_pred : {i : ℕ} (n : ℕ) → i < n → n - 1 < n
idx_pred n h = omega arith

pub ==-no : (a b : ℕ) → a ≢ b → (a == b) ≡ false
==-no a b h = elim (Bool-cases (a == b)) [ inl e ↦ absurd (h ((==_iff a b).0 e)) | inr e ↦ e ]

pub before_last : (i n : ℕ) → i < n → i ≢ n - 1 → i < n - 1
before_last i n lt ne = omega arith

module _ (s : Poller) (channel : ChannelPtr) (g : Registered s channel) (idx : ℕ) (pfd : PollFd)
    (index : (s.store channel).index ≡ some idx) (found : get_elem? s.pollfds idx ≡ some pfd)
    (own : fd_of pfd.fd ≡ (s.store channel).fd) where
  abbrev fd : ℕ
  fd = (s.store channel).fd

  abbrev pub erased : Poller
  erased = record s { channels = put s.channels fd none }

  -- No other entry is for the channel's descriptor.
  other_fd : (i : ℕ) (p : PollFd) → get_elem? s.pollfds i ≡ some p → i ≢ idx → fd_of p.fd ≢ fd
  other_fd i p h ne e =
      let slot = g.valid.slots i p h in
      let same : slot.owner ≡ channel =
        some-injective _ _ (sym slot.mapped ∙ ap s.channels e ∙ g.known) in
      ne (some-injective _ _ (sym slot.index ∙ ap (λ q. (s.store q).index) same ∙ index))

  -- No other channel has the entry.
  other_place : (f : ℕ) (ch : ChannelPtr) (l : Listed s f ch) → f ≢ fd → l.place ≢ idx
  other_place f ch l ne e =
      let same : l.entry ≡ pfd =
        some-injective _ _ (sym l.found ∙ ap (get_elem? s.pollfds) e ∙ found) in
      ne (sym l.own ∙ ap (λ (p : PollFd). fd_of p.fd) same ∙ own)

  erased_old :
      (f : ℕ) (ch : ChannelPtr) → f ≢ fd → s.channels f ≡ some ch → erased.channels f ≡ some ch
  erased_old f ch ne h = put_ne s.channels fd none f ne ∙ h

  erased_ne : (f : ℕ) (ch : ChannelPtr) → erased.channels f ≡ some ch → f ≢ fd
  erased_ne f ch h e =
      none-some (erased.channels fd) (put_self s.channels fd none) (ap erased.channels (sym e) ∙ h)

  erased_from : (f : ℕ) (ch : ChannelPtr) → erased.channels f ≡ some ch → s.channels f ≡ some ch
  erased_from f ch h = sym (put_ne s.channels fd none f (erased_ne f ch h)) ∙ h

  pub idx_lt : idx < length s.pollfds
  idx_lt = get_elem?-lt s.pollfds idx found

  -- The entry is the last one.
  module _ (at_end : idx ≡ length s.pollfds - 1) where
    abbrev pub popped : Poller
    popped = record erased { pollfds = pop_back s.pollfds }

    pub popped-IsValid : IsValid popped
    popped-IsValid = record {
      slots = λ i p h.
          let (old, before) = get_elem?-take (length s.pollfds - 1) s.pollfds i h in
          let slot = g.valid.slots i p old in
          let ne : i ≢ idx = λ e. omega arith in
          record {
            owner = slot.owner;
            mapped = erased_old _ _ (other_fd i p old ne) slot.mapped;
            index = slot.index;
          };
      listed = λ f ch h.
          let l = g.valid.listed f ch (erased_from f ch h) in
          let ne = other_place f ch l (erased_ne f ch h) in
          let lt = get_elem?-lt s.pollfds l.place l.found in
          record {
            fd_eq = l.fd_eq;
            place = l.place;
            entry = l.entry;
            index = l.index;
            found =
                take-get_elem? (length s.pollfds - 1) s.pollfds l.place
                  (before_last l.place (length s.pollfds) lt (λ e. ne (e ∙ sym at_end)))
                ∙ l.found;
            own = l.own;
          };
    }

  -- Another entry stands at the end, and another channel has it.
  module _ (inside : idx ≢ length s.pollfds - 1) (last : PollFd)
      (at_end : get_elem? s.pollfds (length s.pollfds - 1) ≡ some last) where
    abbrev pub end : Slot s (length s.pollfds - 1) last
    end = g.valid.slots (length s.pollfds - 1) last at_end

    abbrev swapped : List PollFd
    swapped = set s.pollfds idx last

    abbrev pub moved : Poller
    moved = record erased {
      store = put s.store end.owner (record (s.store end.owner) { index = some idx });
      pollfds = pop_back swapped;
    }

    last_fd : fd_of last.fd ≢ fd
    last_fd = other_fd (length s.pollfds - 1) last at_end (λ e. inside (sym e))

    swapped_len : length swapped ≡ length s.pollfds
    swapped_len = length-set s.pollfds idx last

    -- A channel with the index of another entry is not the one that moves.
    pub stays :
        (ch : ChannelPtr) (i : ℕ)
        → (s.store ch).index ≡ some i
        → i ≢ length s.pollfds - 1
        → moved.store ch ≡ s.store ch
    stays ch i h ne =
        put_ne s.store end.owner _ ch
          (λ e. ne (some-injective _ _ (sym h ∙ ap (λ q. (s.store q).index) e ∙ end.index)))

    pub moved_index : (moved.store end.owner).index ≡ some idx
    moved_index = ap (λ (c : Channel). c.index) (put_self s.store end.owner _)

    pub moved_fd : (ch : ChannelPtr) → (moved.store ch).fd ≡ (s.store ch).fd
    moved_fd ch = elim (ℕ_discrete ch end.owner) [
      | yes e ↦
          subst (λ q. (moved.store q).fd ≡ (s.store q).fd) (sym e)
            (ap (λ (c : Channel). c.fd) (put_self s.store end.owner _))
      | no e ↦ ap (λ (c : Channel). c.fd) (put_ne s.store end.owner _ ch e)
    ]

    pub moved_events : (ch : ChannelPtr) → (moved.store ch).events ≡ (s.store ch).events
    moved_events ch = elim (ℕ_discrete ch end.owner) [
      | yes e ↦
          subst (λ q. (moved.store q).events ≡ (s.store q).events) (sym e)
            (ap (λ (c : Channel). c.events) (put_self s.store end.owner _))
      | no e ↦ ap (λ (c : Channel). c.events) (put_ne s.store end.owner _ ch e)
    ]

    pub moved_own : (moved.store channel).index ≡ (s.store channel).index
    moved_own = elim (ℕ_discrete channel end.owner) [
      | yes e ↦ ap (λ q. (moved.store q).index) e ∙ moved_index ∙ sym index
      | no e ↦ ap (λ (c : Channel). c.index) (put_ne s.store end.owner _ channel e)
    ]

    pub moved_callbacks :
        (ch : ChannelPtr) → (moved.store ch).read_callback ≡ (s.store ch).read_callback
    moved_callbacks ch = elim (ℕ_discrete ch end.owner) [
      | yes e ↦
          subst (λ q. (moved.store q).read_callback ≡ (s.store q).read_callback) (sym e)
            (ap (λ (c : Channel). c.read_callback) (put_self s.store end.owner _))
      | no e ↦ ap (λ (c : Channel). c.read_callback) (put_ne s.store end.owner _ ch e)
    ]

    pub kept :
        (i : ℕ) {p : PollFd}
        → i ≢ idx
        → i ≢ length s.pollfds - 1
        → get_elem? s.pollfds i ≡ some p
        → get_elem? moved.pollfds i ≡ some p
    kept i {p} ne before h =
        take-get_elem? (length swapped - 1) swapped i (
          subst (λ n. i < n - 1) (sym swapped_len)
            (before_last i (length s.pollfds) (get_elem?-lt s.pollfds i h) before))
        ∙ get_elem?-set_ne s.pollfds idx i last (λ e. ne (sym e))
        ∙ h

    pub filled : get_elem? moved.pollfds idx ≡ some last
    filled =
        take-get_elem? (length swapped - 1) swapped idx (
          subst (λ n. idx < n - 1) (sym swapped_len)
            (before_last idx (length s.pollfds) idx_lt inside))
        ∙ get_elem?-set_self s.pollfds idx last idx_lt

    moved_slot : (i : ℕ) (p : PollFd) → get_elem? moved.pollfds i ≡ some p → Slot moved i p
    moved_slot i p h = elim (ℕ_discrete i idx) [
      | yes e ↦
          let same : last ≡ p =
            some-injective _ _ (sym filled ∙ ap (get_elem? moved.pollfds) (sym e) ∙ h) in
          record {
            owner = end.owner;
            mapped =
                erased_old _ _ (λ x. last_fd (ap (λ (q : PollFd). fd_of q.fd) same ∙ x))
                  (ap (λ (q : PollFd). s.channels (fd_of q.fd)) (sym same) ∙ end.mapped);
            index = moved_index ∙ ap some (sym e);
          }
      | no ne ↦
          let (set_i, before) = get_elem?-take (length swapped - 1) swapped i h in
          let old : get_elem? s.pollfds i ≡ some p =
            sym (get_elem?-set_ne s.pollfds idx i last (λ e. ne (sym e))) ∙ set_i in
          let slot = g.valid.slots i p old in
          let lt : i < length s.pollfds - 1 = subst (λ n. i < n - 1) swapped_len before in
          record {
            owner = slot.owner;
            mapped = erased_old _ _ (other_fd i p old ne) slot.mapped;
            index =
                ap (λ (c : Channel). c.index) (stays slot.owner i slot.index (λ e. omega arith))
                ∙ slot.index;
          }
    ]

    moved_listed : (f : ℕ) (ch : ChannelPtr) → erased.channels f ≡ some ch → Listed moved f ch
    moved_listed f ch h =
        let l = g.valid.listed f ch (erased_from f ch h) in
        let ne = other_place f ch l (erased_ne f ch h) in
        elim (ℕ_discrete l.place (length s.pollfds - 1)) [
          | yes e ↦
              let same : last ≡ l.entry =
                some-injective _ _ (sym at_end ∙ ap (get_elem? s.pollfds) (sym e) ∙ l.found) in
              let itself : end.owner ≡ ch = some-injective _ _ (
                sym end.mapped
                ∙ ap (λ (q : PollFd). s.channels (fd_of q.fd)) same
                ∙ ap s.channels l.own
                ∙ erased_from f ch h) in
              record {
                fd_eq = moved_fd ch ∙ l.fd_eq;
                place = idx;
                entry = last;
                index = ap (λ q. (moved.store q).index) (sym itself) ∙ moved_index;
                found = filled;
                own = ap (λ (q : PollFd). fd_of q.fd) same ∙ l.own;
              }
          | no before ↦ record {
            fd_eq = moved_fd ch ∙ l.fd_eq;
            place = l.place;
            entry = l.entry;
            index = ap (λ (c : Channel). c.index) (stays ch l.place l.index before) ∙ l.index;
            found = kept l.place ne before l.found;
            own = l.own;
          }
        ]

    pub moved-IsValid : IsValid moved
    moved-IsValid = record { slots = moved_slot; listed = moved_listed }

    pub move_last-eq : move_last erased idx ≡ ok moved
    move_last-eq = rw (at_end, move_last, erased_old (fd_of last.fd) end.owner last_fd end.mapped)
