-- ===== src/TimerQueue/Expire.antt =====
-- `getExpired`: which timers it takes out, and when its assertion fails.
use second_gear.Common.{
  ℕ, ◌≡◌, ◌≢◌, refl, sym, ◌∙◌, true, false, List, [], ◌∷◌, ◌++◌, ok, err, Result, assertion, arith,
  All, All-map, All-split, All-append, Bool-cases, inl, inr, ◌⊎◌, assert, ◌>>◌, ltb→lt, subst,
}
use second_gear.Common.Int.{◌<ℤ◌, eq_of_parts}
use second_gear.Common.OrderedSet
use second_gear.Time.{Double, Timestamp, before}
use second_gear.TimerQueue.{
  Entry, entry_ltb, TimerQueue, get_expired, starts_after, handle_read, read_timerfd, Request,
}
use second_gear.TimerQueue.Valid.{entry_ltb_trans, IsValid}

below_now : (now : Timestamp) (e : Entry) → entry_ltb e (now, 0) ≡ true → e.0 <ℤ now
below_now now e h = ground arith

after_first : (now : Timestamp) (e f : Entry) → now <ℤ e.0 → entry_ltb e f ≡ true → now <ℤ f.0
after_first now e f h k = ground arith

exactly_now :
    (now : Timestamp) (e : Entry)
    → entry_ltb e (now, 0) ≡ false
    → before now e.0 ≡ false
    → e.0 ≡ now
exactly_now now e h k = eq_of_parts e.0 now (ground arith)

lt_ne : (a b : Timestamp) → a <ℤ b → a ≢ b
lt_ne a b h e = absurd (lt_irrefl b (subst (λ x. x <ℤ b) e h))
  where
    lt_irrefl : (x : Timestamp) → ¬ (x <ℤ x)
    lt_irrefl x = omega arith

not_split :
    (now : Timestamp) (expired rest older : List Entry) (e : Entry) (newer : List Entry)
    → expired ++ rest ≡ older ++ e ∷ newer
    → e.0 ≡ now
    → All (λ f. f.0 <ℤ now) expired
    → All (λ f. now <ℤ f.0) rest
    → ⊥
not_split now expired rest older e newer split same low high =
    (All-split (λ f. f.0 ≢ now) older (e ∷ newer) (subst (All (λ f. f.0 ≢ now)) split apart)).1.0
      same
  where
    apart : All (λ f. f.0 ≢ now) (expired ++ rest)
    apart =
        All-append (λ f. f.0 ≢ now) expired rest (All-map _ _ expired (λ f. lt_ne f.0 now) low)
          (All-map (λ f. now <ℤ f.0) (λ f. f.0 ≢ now) rest (λ f h p. lt_ne now f.0 h (sym p)) high)

module _ {d : Double} where
  -- Either the queue is split between the entries before `now` and those after, or the assertion
  -- fails and some entry is for exactly `now`.
  abbrev pub Expires : TimerQueue d → Timestamp → Result (List Entry × TimerQueue d) → Type 0
  Expires q now r =
      ((expired : List Entry) × (rest : List Entry) × (r ≡ ok (expired, record q { timers = rest }))
        × (expired ++ rest ≡ q.timers)
        × All (λ e. e.0 <ℤ now) expired
        × All (λ e. now <ℤ e.0) rest)
      ⊎ ((r ≡ err assertion)
          × (older : List Entry) × (e : Entry) × (newer : List Entry) × (q.timers
              ≡ older ++ e ∷ newer)
          × (e.0 ≡ now))

  parts-Expires :
      (q : TimerQueue d) (now : Timestamp) (expired rest : List Entry)
      → expired ++ rest ≡ q.timers
      → OrderedSet.Sorted entry_ltb rest
      → All (λ e. entry_ltb e (now, 0) ≡ true) expired
      → All (λ e. entry_ltb e (now, 0) ≡ false) rest
      → Expires q now (assert (starts_after now rest) >> ok (expired, record q { timers = rest }))
  parts-Expires q now expired [] split sorted low high =
      inl (expired, [], refl, split, All-map _ _ expired (below_now now) low, tt)
  parts-Expires q now expired (e ∷ rest) split sorted low high =
      elim (Bool-cases (before now e.0)) [
        | inl after ↦ inl (
          expired,
          e ∷ rest,
          rw after,
          split,
          All-map _ _ expired (below_now now) low,
          (
            ltb→lt _ _ after,
            All-map _ _ rest (λ f. after_first now e f (ltb→lt _ _ after)) sorted.0,
          ),
        )
        | inr not_after ↦
            inr (rw not_after, expired, e, rest, sym split, exactly_now now e high.0 not_after)
      ]

  -- `getExpired` of a valid queue: either it takes out all entries before `now`, in order, and leaves
  -- those after `now`, of which the two together are all; or its assertion fails, and some entry is
  -- for exactly `now`.
  pub get_expired-Expires :
      (q : TimerQueue d) (now : Timestamp) → IsValid q → Expires q now (get_expired q now)
  unfolding get_expired
  get_expired-Expires q now v =
      parts-Expires q now expired rest split
        (OrderedSet.Sorted-split entry_ltb expired rest
          (subst (OrderedSet.Sorted entry_ltb) (sym split) v.sorted)).1
        (OrderedSet.lower_bound-below entry_ltb q.timers (now, 0))
        (OrderedSet.lower_bound-above entry_ltb entry_ltb_trans q.timers (now, 0) v.sorted)
    where
      expired : List Entry
      expired = (OrderedSet.lower_bound entry_ltb q.timers (now, 0)).0

      rest : List Entry
      rest = (OrderedSet.lower_bound entry_ltb q.timers (now, 0)).1

      split : expired ++ rest ≡ q.timers
      split = OrderedSet.lower_bound-append entry_ltb q.timers (now, 0)

  -- If a valid queue has a timer that expires exactly at `now`, wherever it stands among the others,
  -- `handleRead` ends in a failed assertion.
  pub handle_read-exactly_now :
      (q : TimerQueue d) (now later : Timestamp) (effects : ℕ → List (Request d))
      (older : List Entry) (e : Entry) (newer : List Entry)
      → IsValid q
      → q.timers ≡ older ++ e ∷ newer
      → e.0 ≡ now
      → handle_read q now later effects ≡ err assertion
  unfolding handle_read read_timerfd
  handle_read-exactly_now q now later effects older e newer v split same =
      elim (get_expired-Expires (read_timerfd q) now
        (record { sorted = v.sorted; entries = v.entries })) [
          | inl (expired, rest, eq, parts, low, high) ↦
              absurd (not_split now expired rest older e newer (parts ∙ split) same low high)
          | inr (eq, _, _, _, _, _) ↦ rw eq
        ]
