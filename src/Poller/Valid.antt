-- ===== src/Poller/Valid.antt =====
-- The invariant of the poller: its table of entries and its map of channels fit together.
use second_gear.Common.{
  ℕ, zero, suc, ◌≡◌, ◌≢◌, ◌<◌, refl, ap, ◌⊎◌, inl, inr, List, [], ◌∷◌, ◌++◌, some, arith, length,
  get_elem?, take, Bool-cases, ◌==◌, ==_iff,
}
use second_gear.Channel.{Channel}
use second_gear.Poller.{ChannelPtr, PollFd, Poller, fd_of, put, create}

-- An entry of the table belongs to a channel of the map, which has its index.
pub record Slot (s : Poller) (i : ℕ) (p : PollFd) : Type 0 where
  pub owner : ChannelPtr
  pub mapped : s.channels (fd_of p.fd) ≡ some owner
  pub index : (s.store owner).index ≡ some i

-- A channel of the map stands there under its descriptor, and has an entry.
pub record Listed (s : Poller) (fd : ℕ) (channel : ChannelPtr) : Type 0 where
  pub fd_eq : (s.store channel).fd ≡ fd
  pub place : ℕ
  pub entry : PollFd
  pub index : (s.store channel).index ≡ some place
  pub found : get_elem? s.pollfds place ≡ some entry
  pub own : fd_of entry.fd ≡ fd

pub record IsValid (s : Poller) : Type 0 where
  pub slots : (i : ℕ) (p : PollFd) → get_elem? s.pollfds i ≡ some p → Slot s i p
  pub listed : (fd : ℕ) (channel : ChannelPtr) → s.channels fd ≡ some channel → Listed s fd channel

pub create-IsValid : (store : ChannelPtr → Channel) → IsValid (create store)
create-IsValid store = record { slots = λ i p h. cc; listed = λ fd channel h. cc }

module _ {ℓ} {A : Type ℓ} where
  pub put_self : (f : ℕ → A) (a : ℕ) (x : A) → put f a x a ≡ x
  put_self f a x = rw ((==_iff a a).1 refl)

  pub put_ne : (f : ℕ → A) (a : ℕ) (x : A) (b : ℕ) → b ≢ a → put f a x b ≡ f b
  put_ne f a x b h = elim (Bool-cases (a == b)) [
    | inl same ↦ absurd (h (ground arith))
    | inr other ↦ rw other
  ]

  pub get_elem?-lt : (l : List A) (i : ℕ) {x : A} → get_elem? l i ≡ some x → i < length l
  get_elem?-lt [] i h = cc
  get_elem?-lt (y ∷ l) zero h = omega arith
  get_elem?-lt (y ∷ l) (suc i) h = omega (arith, get_elem?-lt l i h)

  -- What stands in a list that one element has been put behind.
  pub get_elem?-snoc :
      (l : List A) (y : A) (i : ℕ) {x : A}
      → get_elem? (l ++ (y ∷ [])) i ≡ some x
      → (get_elem? l i ≡ some x) ⊎ ((i ≡ length l) × (y ≡ x))
  get_elem?-snoc [] y zero h = inr (refl, ground arith)
  get_elem?-snoc [] y (suc i) h = cc
  get_elem?-snoc (z ∷ l) y zero h = inl h
  get_elem?-snoc (z ∷ l) y (suc i) h = elim (get_elem?-snoc l y i h) [
    | inl old ↦ inl old
    | inr (e, same) ↦ inr (ap suc e, same)
  ]

  pub get_elem?-snoc_old :
      (l : List A) (y : A) (i : ℕ) {x : A}
      → get_elem? l i ≡ some x
      → get_elem? (l ++ (y ∷ [])) i ≡ some x
  get_elem?-snoc_old [] y i h = cc
  get_elem?-snoc_old (z ∷ l) y zero h = h
  get_elem?-snoc_old (z ∷ l) y (suc i) h = get_elem?-snoc_old l y i h

  pub get_elem?-snoc_new : (l : List A) (y : A) → get_elem? (l ++ (y ∷ [])) (length l) ≡ some y
  get_elem?-snoc_new [] y = refl
  get_elem?-snoc_new (z ∷ l) y = get_elem?-snoc_new l y

  pub get_elem?-take :
      (n : ℕ) (l : List A) (i : ℕ) {x : A}
      → get_elem? (take n l) i ≡ some x
      → (get_elem? l i ≡ some x) × (i < n)
  get_elem?-take zero l i h = cc
  get_elem?-take (suc n) [] i h = cc
  get_elem?-take (suc n) (y ∷ l) zero h = (h, omega arith)
  get_elem?-take (suc n) (y ∷ l) (suc i) h = let (a, b) = get_elem?-take n l i h in (a, omega arith)

  pub take-get_elem? : (n : ℕ) (l : List A) (i : ℕ) → i < n → get_elem? (take n l) i ≡ get_elem? l i
  take-get_elem? zero l i h = absurd (omega arith)
  take-get_elem? (suc n) [] i h = refl
  take-get_elem? (suc n) (y ∷ l) zero h = refl
  take-get_elem? (suc n) (y ∷ l) (suc i) h = take-get_elem? n l i (omega arith)

  pub lt-get_elem? : (l : List A) (i : ℕ) → i < length l → (x : A) × (get_elem? l i ≡ some x)
  lt-get_elem? [] i h = absurd (omega arith)
  lt-get_elem? (y ∷ l) zero h = (y, refl)
  lt-get_elem? (y ∷ l) (suc i) h = lt-get_elem? l i (omega arith)
