-- ===== src/Poller/Active.antt =====
-- `poll` and `getActiveChannels` against a filter of the table.
use second_gear.Common.{
  ℕ, zero, suc, ◌≡◌, refl, sym, ap, ap₂, ◌∙◌, ◌⊎◌, inl, inr, List, [], ◌∷◌, Option, none, some, ok,
  arith, true, false, Bool-cases, if◌then◌else◌, if-true, if-false, All,
}
use second_gear.Common.Int.{ℤ, pos, negsuc}
use second_gear.Channel.{Flags, any, Channel}
use second_gear.Poller.{
  ChannelPtr, PollFd, fd_of, is_ignored, Poller, put, activate, get_active_channels,
}

abbrev pub put_first : Option ChannelPtr → List ChannelPtr → List ChannelPtr
put_first none rest = rest
put_first (some ch) rest = ch ∷ rest

-- The channels of the entries with events, in the order of the table.
abbrev pub active : (ℕ → Option ChannelPtr) → List PollFd → List ChannelPtr
active channels [] = []
active channels (p ∷ ps) =
    let rest = active channels ps in
    if any p.revents then put_first (channels (fd_of p.fd)) rest else rest

abbrev pub count_active : List PollFd → ℕ
count_active [] = 0
count_active (p ∷ ps) = if any p.revents then suc (count_active ps) else count_active ps

-- `set_revents` of the channel of an entry, and of all with events.
abbrev pub mark : (ChannelPtr → Channel) → ChannelPtr → Flags → ChannelPtr → Channel
mark store ch revents = put store ch (record (store ch) { revents = revents })

abbrev pub mark_known : Option ChannelPtr → (ChannelPtr → Channel) → Flags → ChannelPtr → Channel
mark_known none store revents = store
mark_known (some ch) store revents = mark store ch revents

abbrev pub mark_one :
    (ℕ → Option ChannelPtr) → (ChannelPtr → Channel) → PollFd → ChannelPtr → Channel
mark_one channels store p =
    if any p.revents then mark_known (channels (fd_of p.fd)) store p.revents else store

abbrev pub marked :
    (ℕ → Option ChannelPtr) → (ChannelPtr → Channel) → List PollFd → ChannelPtr → Channel
marked channels store [] = store
marked channels store (p ∷ ps) = marked channels (mark_one channels store p) ps

-- The map has the channel of an entry, and an entry with events is not ignored.
abbrev pub Known : (ℕ → Option ChannelPtr) → PollFd → Type 0
Known channels p = (ch : ChannelPtr) × (channels (fd_of p.fd) ≡ some ch)

abbrev pub Attended : PollFd → Type 0
Attended p = (any p.revents ≡ false) ⊎ (is_ignored p.fd ≡ false)

Attended-pos : (p : PollFd) → any p.revents ≡ true → Attended p → p.fd ≡ pos (fd_of p.fd)
Attended-pos p h (inl quiet) = cc
Attended-pos p h (inr attended) = positive p.fd attended
  where
    positive : (z : ℤ) → is_ignored z ≡ false → z ≡ pos (fd_of z)
    positive (pos n) e = refl
    positive (negsuc n) e = cc

none_active :
    (channels : ℕ → Option ChannelPtr) (store : ChannelPtr → Channel) (ps : List PollFd)
    → count_active ps ≡ 0
    → (active channels ps ≡ []) × (marked channels store ps ≡ store)
none_active channels store [] h = (refl, refl)
none_active channels store (p ∷ ps) h = elim (Bool-cases (any p.revents)) [
  | inl on ↦ absurd (zero_suc (sym h ∙ if-true _ _ on))
  | inr off ↦
      let (a, m) = none_active channels store ps (sym (if-false _ _ off) ∙ h) in
      (if-false _ _ off ∙ a, ap (λ st. marked channels st ps) (if-false _ _ off) ∙ m)
]
  where
    zero_suc : {n : ℕ} → zero ≡ suc n → ⊥
    zero_suc e = omega arith

activate-eq :
    (s : Poller) (p : PollFd) (ch : ChannelPtr)
    → p.fd ≡ pos (fd_of p.fd)
    → s.channels (fd_of p.fd) ≡ some ch
    → activate s p ≡ ok (ch, record s { store = mark s.store ch p.revents })
unfolding activate
activate-eq s p ch e known = at p.fd e known
  where
    at :
        (z : ℤ)
        → z ≡ pos (fd_of z)
        → s.channels (fd_of z) ≡ some ch
        → activate s (record p { fd = z }) ≡ ok (ch, record s { store = mark s.store ch p.revents })
    at (pos n) e known = rw (known, activate) refl
    at (negsuc n) e known = cc

-- What the loop of `getActiveChannels` returns.
abbrev pub reported : Poller → List PollFd → List ChannelPtr × Poller
reported s ps = (active s.channels ps, record s { store = marked s.channels s.store ps })

pub get_active_channels-eq :
    (s : Poller) (ps : List PollFd) (n : ℕ)
    → count_active ps ≡ n
    → All (Known s.channels) ps
    → All Attended ps
    → get_active_channels s ps n ≡ ok (reported s ps)
unfolding get_active_channels
get_active_channels-eq s [] n h k a = refl
get_active_channels-eq s (p ∷ ps) zero h k a =
    let (none_there, same) = none_active s.channels s.store (p ∷ ps) h in
    ap₂ (λ l st. ok (l, record s { store = st })) (sym none_there) (sym same)
get_active_channels-eq s (p ∷ ps) (suc n) h ((ch, known), k) (attended, a) =
    elim (Bool-cases (any p.revents)) [
      | inr off ↦
          let rest = get_active_channels-eq s ps (suc n) (sym (if-false _ _ off) ∙ h) k a in
          if-false _ _ off
          ∙ rest
          ∙ ap₂ (λ l st. ok (l, record s { store = st })) (sym (if-false _ _ off))
              (ap (λ st. marked s.channels st ps) (sym (if-false _ _ off)))
      | inl on ↦
          let next : Poller = record s { store = mark s.store ch p.revents } in
          let rest = get_active_channels-eq next ps n (pred (sym (if-true _ _ on) ∙ h)) k a in
          if-true _ _ on
          ∙ (rw (activate-eq s p ch (Attended-pos p on attended) known, rest) refl)
          ∙ ap₂ (λ l st. ok (l, record s { store = st }))
              (sym (if-true _ _ on ∙ ap (λ o. put_first o (active s.channels ps)) known))
              (ap (λ st. marked s.channels st ps)
                (sym (if-true _ _ on ∙ ap (λ o. mark_known o s.store p.revents) known)))
    ]
  where
    pred : {m n : ℕ} → suc m ≡ suc n → m ≡ n
    pred e = omega arith
