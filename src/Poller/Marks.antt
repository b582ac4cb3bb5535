-- ===== src/Poller/Marks.antt =====
-- The loop of `getActiveChannels` as the store sees it: each channel gets the events of its entry.
use second_gear.Common.{
  ℕ, zero, suc, ◌≡◌, ◌≢◌, refl, sym, ap, ◌∙◌, inl, inr, List, [], ◌∷◌, Option, none, some,
  some-injective, arith, get_elem?, Bool-cases, if◌then◌else◌, if-true, if-false, ◌==◌, ==_iff,
}
use second_gear.Channel.{Flags, any, Channel}
use second_gear.Poller.{ChannelPtr, PollFd, fd_of, Poller}
use second_gear.Poller.Valid.{IsValid, put_self, put_ne}
use second_gear.Poller.Active.{mark_known, mark_one, marked}

-- A field that `set_revents` leaves alone.
mark_one-keeps {ℓ} :
    {A : Type ℓ} (f : Channel → A)
    → ((c : Channel) (r : Flags) → f (record c { revents = r }) ≡ f c)
    → (channels : ℕ → Option ChannelPtr) (store : ChannelPtr → Channel) (p : PollFd)
      (ch : ChannelPtr)
    → f (mark_one channels store p ch) ≡ f (store ch)
mark_one-keeps f keep channels store p ch = elim (Bool-cases (any p.revents)) [
  | inr off ↦ ap (λ (st : ChannelPtr → Channel). f (st ch)) (if-false _ _ off)
  | inl on ↦
      ap (λ (st : ChannelPtr → Channel). f (st ch)) (if-true _ _ on)
      ∙ known_keeps (channels (fd_of p.fd))
]
  where
    known_keeps : (o : Option ChannelPtr) → f (mark_known o store p.revents ch) ≡ f (store ch)
    known_keeps none = refl
    known_keeps (some other) = elim (Bool-cases (other == ch)) [
      | inl here ↦
          ap f (if-true _ _ here)
          ∙ keep (store other) p.revents
          ∙ ap (λ c. f (store c)) ((==_iff other ch).0 here)
      | inr there ↦ ap f (if-false _ _ there)
    ]

pub marked-keeps {ℓ} :
    {A : Type ℓ} (f : Channel → A)
    → ((c : Channel) (r : Flags) → f (record c { revents = r }) ≡ f c)
    → (channels : ℕ → Option ChannelPtr) (store : ChannelPtr → Channel) (ps : List PollFd)
      (ch : ChannelPtr)
    → f (marked channels store ps ch) ≡ f (store ch)
marked-keeps f keep channels store [] ch = refl
marked-keeps f keep channels store (p ∷ ps) ch =
    marked-keeps f keep channels (mark_one channels store p) ps ch
    ∙ mark_one-keeps f keep channels store p ch

-- No two entries have the same channel.
pub Single : (ℕ → Option ChannelPtr) → List PollFd → Type 0
Single channels ps =
    (i j : ℕ) (p q : PollFd) (ch : ChannelPtr)
    → get_elem? ps i ≡ some p
    → get_elem? ps j ≡ some q
    → channels (fd_of p.fd) ≡ some ch
    → channels (fd_of q.fd) ≡ some ch
    → i ≡ j

pub valid-Single : (s : Poller) → IsValid s → Single s.channels s.pollfds
unfolding Single
valid-Single s v i j p q ch hi hj mi mj =
    let a = v.slots i p hi in
    let b = v.slots j q hj in
    let same : a.owner ≡ b.owner = some-injective _ _ (sym a.mapped ∙ mi ∙ sym mj ∙ b.mapped) in
    some-injective _ _ (sym a.index ∙ ap (λ o. (s.store o).index) same ∙ b.index)

tail-Single :
    (channels : ℕ → Option ChannelPtr) (x : PollFd) (ps : List PollFd)
    → Single channels (x ∷ ps)
    → Single channels ps
unfolding Single
tail-Single channels x ps h i j p q ch hi hj mi mj =
    let e = h (suc i) (suc j) p q ch hi hj mi mj in omega arith

mark_one-other :
    (channels : ℕ → Option ChannelPtr) (store : ChannelPtr → Channel) (p : PollFd) (ch : ChannelPtr)
    → channels (fd_of p.fd) ≢ some ch
    → mark_one channels store p ch ≡ store ch
mark_one-other channels store p ch h = elim (Bool-cases (any p.revents)) [
  | inr off ↦ ap (λ (st : ChannelPtr → Channel). st ch) (if-false _ _ off)
  | inl on ↦
      ap (λ (st : ChannelPtr → Channel). st ch) (if-true _ _ on)
      ∙ known_other (channels (fd_of p.fd)) h
]
  where
    known_other : (o : Option ChannelPtr) → o ≢ some ch → mark_known o store p.revents ch ≡ store ch
    known_other none ne = refl
    known_other (some other) ne = put_ne store other _ ch (λ e. ne (ap some (sym e)))

-- The channel of no entry is left alone.
marked-other :
    (channels : ℕ → Option ChannelPtr) (store : ChannelPtr → Channel) (ps : List PollFd)
    (ch : ChannelPtr)
    → ((j : ℕ) (q : PollFd) → get_elem? ps j ≡ some q → channels (fd_of q.fd) ≢ some ch)
    → marked channels store ps ch ≡ store ch
marked-other channels store [] ch h = refl
marked-other channels store (p ∷ ps) ch h =
    marked-other channels (mark_one channels store p) ps ch (λ j q e. h (suc j) q e)
    ∙ mark_one-other channels store p ch (h 0 p refl)

mark_one_self :
    (channels : ℕ → Option ChannelPtr) (store : ChannelPtr → Channel) (p : PollFd) (ch : ChannelPtr)
    → channels (fd_of p.fd) ≡ some ch
    → (mark_one channels store p ch).revents
      ≡ (if any p.revents then p.revents else (store ch).revents)
mark_one_self channels store p ch h = elim (Bool-cases (any p.revents)) [
  | inr off ↦
      ap (λ (st : ChannelPtr → Channel). (st ch).revents) (if-false _ _ off)
      ∙ sym (if-false _ _ off)
  | inl on ↦
      ap (λ (st : ChannelPtr → Channel). (st ch).revents) (if-true _ _ on)
      ∙ ap (λ o. (mark_known o store p.revents ch).revents) h
      ∙ ap (λ (c : Channel). c.revents) (put_self store ch _)
      ∙ sym (if-true _ _ on)
]

-- A channel has the flags of its own entry, if there are any.
pub marked-at :
    (channels : ℕ → Option ChannelPtr) (store : ChannelPtr → Channel) (ps : List PollFd)
    → Single channels ps
    → (i : ℕ) (p : PollFd) (ch : ChannelPtr) → get_elem? ps i ≡ some p
    → channels (fd_of p.fd) ≡ some ch
    → (marked channels store ps ch).revents
      ≡ (if any p.revents then p.revents else (store ch).revents)
unfolding Single
marked-at channels store [] single i p ch h m = cc
marked-at channels store (x ∷ ps) single zero p ch h m =
    let same : x ≡ p = some-injective _ _ h in
    ap (λ (c : Channel). c.revents)
      (marked-other channels (mark_one channels store x) ps ch (λ j q e mq. absurd (
        apart j (
          single 0 (suc j) x q ch refl e (ap (λ (y : PollFd). channels (fd_of y.fd)) same ∙ m)
            mq))))
    ∙ ap (λ y. (mark_one channels store y ch).revents) same
    ∙ mark_one_self channels store p ch m
  where
    apart : (j : ℕ) → zero ≡ suc j → ⊥
    apart j e = omega arith
marked-at channels store (x ∷ ps) single (suc i) p ch h m =
    marked-at channels (mark_one channels store x) ps (tail-Single channels x ps single) i p ch h m
    ∙ ap (λ (c : Channel). if any p.revents then p.revents else c.revents)
        (mark_one-other channels store x ch (λ mx. apart i (single 0 (suc i) x p ch refl h mx m)))
  where
    apart : (j : ℕ) → zero ≡ suc j → ⊥
    apart j e = omega arith
