-- ===== src/Channel/Dispatch.antt =====
-- `handleEvent`: which callbacks run, and in which order.
use second_gear.Common.{
  ℕ, ◌<◌, ◌≡◌, ◌↔◌, ◌⊎◌, refl, sym, ap, ◌∙◌, inl, inr, Bool, true, false, ◌&&◌, ◌||◌, not, List, [],
  ◌∷◌, ◌++◌, Option, none, some, some-injective, subst, All, All-append, arith,
}
use second_gear.Time.{Timestamp, Callback}
use second_gear.Channel.{Channel, Call, closes, errors, reads, writes, call_if, handle_event}

abbrev rank : Call → ℕ
rank (closes cb) = 0
rank (errors cb) = 1
rank (reads cb t) = 2
rank (writes cb) = 3

-- Close comes before error, error before read and read before write, and each at most once.
abbrev pub Ordered : List Call → Type 0
Ordered [] = Unit
Ordered (x ∷ l) = All (λ y. rank x < rank y) l × Ordered l

abbrev pub Runs : Call → List Call → Type 0
Runs x [] = ⊥
Runs x (y ∷ l) = (x ≡ y) ⊎ Runs x l

-- When the channel's `revents_` call for a callback that is set.
abbrev pub Due : Channel → Timestamp → Call → Type 0
Due c t (closes cb) =
    (c.close_callback ≡ some cb) × (c.revents.pollhup ≡ true) × (c.revents.pollin ≡ false)
Due c t (errors cb) =
    (c.error_callback ≡ some cb) × ((c.revents.pollerr ≡ true) ⊎ (c.revents.pollnval ≡ true))
Due c t (reads cb u) =
    (c.read_callback ≡ some cb)
    × (u ≡ t)
    × ((c.revents.pollin ≡ true) ⊎ (c.revents.pollpri ≡ true) ⊎ (c.revents.pollrdhup ≡ true))
Due c t (writes cb) = (c.write_callback ≡ some cb) × (c.revents.pollout ≡ true)

-- The calls of one test.
OfRank : ℕ → List Call → Type 0
OfRank n [] = Unit
OfRank n (x ∷ []) = rank x ≡ n
OfRank n (x ∷ y ∷ l) = ⊥

call_if-OfRank :
    (n : ℕ) (b : Bool) (o : Option Callback) (f : Callback → Call)
    → ((cb : Callback) → rank (f cb) ≡ n)
    → OfRank n (call_if b o f)
unfolding OfRank
call_if-OfRank n b none f h = tt
call_if-OfRank n true (some cb) f h = h cb
call_if-OfRank n false (some cb) f h = tt

OfRank-Ordered :
    (n : ℕ) (l r : List Call) → OfRank n l → All (λ y. n < rank y) r → Ordered r → Ordered (l ++ r)
unfolding OfRank
OfRank-Ordered n [] r h a o = o
OfRank-Ordered n (x ∷ []) r h a o = (subst (λ k. All (λ y. k < rank y) r) (sym h) a, o)
OfRank-Ordered n (x ∷ y ∷ l) r h a o = absurd h

OfRank-above : (n m : ℕ) (l : List Call) → OfRank n l → m < n → All (λ y. m < rank y) l
unfolding OfRank
OfRank-above n m [] h lt = tt
OfRank-above n m (x ∷ []) h lt = (omega arith, tt)
OfRank-above n m (x ∷ y ∷ l) h lt = absurd h

OfRank-Ordered_alone : (n : ℕ) (l : List Call) → OfRank n l → Ordered l
unfolding OfRank
OfRank-Ordered_alone n [] h = tt
OfRank-Ordered_alone n (x ∷ []) h = (tt, tt)
OfRank-Ordered_alone n (x ∷ y ∷ l) h = absurd h

Runs-append : (x : Call) (l r : List Call) → Runs x (l ++ r) ↔ (Runs x l ⊎ Runs x r)
Runs-append x [] r = (λ h. inr h, λ h. elim h [ inl never ↦ absurd never | inr back ↦ back ])
Runs-append x (y ∷ l) r = (
  λ h. elim h [
    | inl e ↦ inl (inl e)
    | inr t ↦ elim ((Runs-append x l r).0 t) [ inl a ↦ inl (inr a) | inr b ↦ inr b ]
  ],
  λ h. elim h [
    | inl (inl e) ↦ inl e
    | inl (inr a) ↦ inr ((Runs-append x l r).1 (inl a))
    | inr b ↦ inr ((Runs-append x l r).1 (inr b))
  ],
)

Runs-call_if :
    (x : Call) (b : Bool) (o : Option Callback) (f : Callback → Call)
    → Runs x (call_if b o f) ↔ ((cb : Callback) × (o ≡ some cb) × (b ≡ true) × (x ≡ f cb))
Runs-call_if x b none f = (λ h. absurd h, λ h. cc)
Runs-call_if x false (some cb) f = (λ h. absurd h, λ h. cc)
Runs-call_if x true (some cb) f = (
  λ h. elim h [ inl e ↦ (cb, refl, refl, e) | inr never ↦ absurd never ],
  λ (d, e, t, same). inl (same ∙ ap f (sym (some-injective _ _ e))),
)

and_not : (a b : Bool) → ((a && not b) ≡ true) ↔ ((a ≡ true) × (b ≡ false))
and_not true true = (λ h. cc, λ (h, g). cc)
and_not true false = (λ h. (refl, refl), λ h. refl)
and_not false b = (λ h. cc, λ (h, g). cc)

or_true : (a b : Bool) → ((a || b) ≡ true) ↔ ((a ≡ true) ⊎ (b ≡ true))
or_true true b = (λ h. inl refl, λ h. refl)
or_true false b = (λ h. inr h, λ h. elim h [ inl e ↦ cc | inr e ↦ e ])

module _ (c : Channel) (t : Timestamp) where
  abbrev closing : List Call
  closing = call_if (c.revents.pollhup && not c.revents.pollin) c.close_callback closes

  abbrev failing : List Call
  failing = call_if (c.revents.pollerr || c.revents.pollnval) c.error_callback errors

  abbrev reading : List Call
  reading =
      call_if (c.revents.pollin || (c.revents.pollpri || c.revents.pollrdhup)) c.read_callback
        (λ cb. reads cb t)

  abbrev writing : List Call
  writing = call_if c.revents.pollout c.write_callback writes

  closing_rank : OfRank 0 closing
  closing_rank = call_if-OfRank 0 _ c.close_callback closes (λ cb. refl)

  failing_rank : OfRank 1 failing
  failing_rank = call_if-OfRank 1 _ c.error_callback errors (λ cb. refl)

  reading_rank : OfRank 2 reading
  reading_rank = call_if-OfRank 2 _ c.read_callback (λ cb. reads cb t) (λ cb. refl)

  writing_rank : OfRank 3 writing
  writing_rank = call_if-OfRank 3 _ c.write_callback writes (λ cb. refl)

  calls-Ordered : Ordered (closing ++ (failing ++ (reading ++ writing)))
  calls-Ordered =
      OfRank-Ordered 0 closing _ closing_rank
        (All-append (λ y. 0 < rank y) failing _
          (OfRank-above 1 0 failing failing_rank (omega arith))
          (All-append (λ y. 0 < rank y) reading _
            (OfRank-above 2 0 reading reading_rank (omega arith))
            (OfRank-above 3 0 writing writing_rank (omega arith))))
        (OfRank-Ordered 1 failing _ failing_rank
          (All-append (λ y. 1 < rank y) reading _
            (OfRank-above 2 1 reading reading_rank (omega arith))
            (OfRank-above 3 1 writing writing_rank (omega arith)))
          (OfRank-Ordered 2 reading _ reading_rank
            (OfRank-above 3 2 writing writing_rank (omega arith))
            (OfRank-Ordered_alone 3 writing writing_rank)))

  read_flags :
      (c.revents.pollin || (c.revents.pollpri || c.revents.pollrdhup)) ≡ true
      ↔ ((c.revents.pollin ≡ true) ⊎ (c.revents.pollpri ≡ true) ⊎ (c.revents.pollrdhup ≡ true))
  read_flags = (
    λ h. elim ((or_true c.revents.pollin _).0 h) [
      | inl a ↦ inl a
      | inr b ↦ inr ((or_true _ _).0 b)
    ],
    λ h.
        (or_true c.revents.pollin _).1 (elim h [ inl a ↦ inl a | inr b ↦ inr ((or_true _ _).1 b) ]),
  )

  closing-Due : (x : Call) → Runs x closing → Due c t x
  closing-Due x h =
      let (cb, e, b, same) = (Runs-call_if x _ _ closes).0 h in
      subst (Due c t) (sym same) (e, ((and_not _ _).0 b).0, ((and_not _ _).0 b).1)

  failing-Due : (x : Call) → Runs x failing → Due c t x
  failing-Due x h =
      let (cb, e, b, same) = (Runs-call_if x _ _ errors).0 h in
      subst (Due c t) (sym same) (e, (or_true _ _).0 b)

  reading-Due : (x : Call) → Runs x reading → Due c t x
  reading-Due x h =
      let (cb, e, b, same) = (Runs-call_if x _ _ (λ cb. reads cb t)).0 h in
      subst (Due c t) (sym same) (e, refl, read_flags.0 b)

  writing-Due : (x : Call) → Runs x writing → Due c t x
  writing-Due x h =
      let (cb, e, b, same) = (Runs-call_if x _ _ writes).0 h in subst (Due c t) (sym same) (e, b)

  calls-Due : (x : Call) → Runs x (closing ++ (failing ++ (reading ++ writing))) → Due c t x
  calls-Due x h = elim ((Runs-append x closing _).0 h) [
    | inl a ↦ closing-Due x a
    | inr r ↦ elim ((Runs-append x failing _).0 r) [
      | inl a ↦ failing-Due x a
      | inr s ↦ elim ((Runs-append x reading _).0 s) [
        | inl a ↦ reading-Due x a
        | inr a ↦ writing-Due x a
      ]
    ]
  ]

  Due-calls : (x : Call) → Due c t x → Runs x (closing ++ (failing ++ (reading ++ writing)))
  Due-calls (closes cb) (e, b, n) =
      (Runs-append _ closing _).1
        (inl ((Runs-call_if _ _ _ closes).1 (cb, e, (and_not _ _).1 (b, n), refl)))
  Due-calls (errors cb) (e, b) = (Runs-append _ closing _).1 (
      inr (
        (Runs-append _ failing _).1
          (inl ((Runs-call_if _ _ _ errors).1 (cb, e, (or_true _ _).1 b, refl)))))
  Due-calls (reads cb u) (e, same, b) = (Runs-append _ closing _).1 (
      inr (
        (Runs-append _ failing _).1 (
          inr (
            (Runs-append _ reading _).1 (
              inl (
                (Runs-call_if _ _ _ (λ d. reads d t)).1
                  (cb, e, read_flags.1 b, ap (reads cb) same)))))))
  Due-calls (writes cb) (e, b) = (Runs-append _ closing _).1 (
      inr (
        (Runs-append _ failing _).1 (
          inr
            ((Runs-append _ reading _).1 (inr ((Runs-call_if _ _ _ writes).1 (cb, e, b, refl)))))))

  -- `handleEvent` runs close, error, read and write callbacks in this order, each at most once, and exactly
  -- those that are set and whose flags `revents_` has: close for a hang-up without input, error for an
  -- error or an invalid descriptor, read for input, urgent input or a half-closed peer, with the time of
  -- the receipt, and write for room to write.
  pub handle_event_lem :
      Ordered (handle_event c t).1 × ((x : Call) → Runs x (handle_event c t).1 ↔ Due c t x)
  unfolding handle_event
  handle_event_lem = (calls-Ordered, λ x. (calls-Due x, Due-calls x))
