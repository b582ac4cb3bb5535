-- ===== src/TimerQueue/Valid.antt =====
-- The invariant of the queue of timers.
use second_gear.Common.{
  ◌<◌, ◌≡◌, ◌≢◌, ◌⊎◌, inl, inr, true, false, List, [], ◌∷◌, Option, some, arith, All, Bool-cases,
  ◌==◌, ==_iff, refl, ◌++◌, All-split, sym, ap, ◌∙◌,
}
use second_gear.Common.Int.{pos, pos_part, neg_part, ◌<ℤ◌, eq_of_parts}
use second_gear.Common.OrderedSet
use second_gear.Time.{Double, Timer, Timestamp, before}
use second_gear.TimerQueue.{Address, Entry, entry_ltb, TimerQueue, update, Alarm, arm}

pub entry_ltb_trans :
    (a b c : Entry) → entry_ltb a b ≡ true → entry_ltb b c ≡ true → entry_ltb a c ≡ true
entry_ltb_trans a b c p q = ground arith

-- Entries of different timers are ordered.
pub entry_ltb_total : (a b : Entry) → b.1 ≢ a.1 → (entry_ltb a b ≡ true) ⊎ (entry_ltb b a ≡ true)
entry_ltb_total a b h = ground arith

-- A lemma of `before`.
pub same_head : (a b : Entry) → entry_ltb a b ≡ true → before a.0 b.0 ≡ false → a.0 ≡ b.0
same_head a b p q = eq_of_parts a.0 b.0 (ground arith)

module _ {d : Double} where
  -- What the queue relies on of a timer: it repeats only with a positive interval, which never
  -- changes, and it expires after the epoch.
  pub record IsTimer (t : Timer d) : Type 0 where
    pub future : pos 0 <ℤ t.expiration
    pub periodic : t.repeat ≡ d.positive t.interval

  -- The key of an entry is the expiration of its timer, and no entry holds a null pointer.
  pub record IsEntry (store : Address → Timer d) (e : Entry) : Type 0 where
    pub keyed : (store e.1).expiration ≡ e.0
    pub non_null : 0 < e.1
    pub timer : IsTimer (store e.1)

  pub record IsValid (q : TimerQueue d) : Type 0 where
    pub sorted : OrderedSet.Sorted entry_ltb q.timers
    pub entries : All (IsEntry q.store) q.timers

-- No entry of the list holds the timer.
abbrev pub Absent : Address → List Entry → Type 0
Absent a = All (λ e. e.1 ≢ a)

module _ {d : Double} where
  pub update_other :
      (store : Address → Timer d) (a : Address) (t : Timer d) (b : Address)
      → b ≢ a
      → update store a t b ≡ store b
  update_other store a t b h = elim (Bool-cases (a == b)) [
    | inl same ↦ absurd (h (ground arith))
    | inr other ↦ rw other
  ]

  pub update_self : (store : Address → Timer d) (a : Address) (t : Timer d) → update store a t a ≡ t
  update_self store a t = rw ((==_iff a a).1 refl)

  IsEntry-eq :
      (store other : Address → Timer d) (e : Entry)
      → other e.1 ≡ store e.1
      → IsEntry store e
      → IsEntry other e
  IsEntry-eq store other e p h = record {
    keyed = rw p h.keyed;
    non_null = h.non_null;
    timer = rw p h.timer;
  }

  -- A change of a timer that no entry holds.
  pub IsEntry-update :
      (store : Address → Timer d) (a : Address) (t : Timer d) (l : List Entry)
      → Absent a l
      → All (IsEntry store) l
      → All (IsEntry (update store a t)) l
  IsEntry-update store a t [] h k = tt
  IsEntry-update store a t (e ∷ l) h k = (
    IsEntry-eq store (update store a t) e (update_other store a t e.1 h.0) k.0,
    IsEntry-update store a t l h.1 k.1,
  )

-- The descriptor is set for the earliest expiration, if there is one.
abbrev pub Armed : Option Alarm → List Entry → Type 0
Armed alarm [] = Unit
Armed alarm (e ∷ _) = (now : Timestamp) × (alarm ≡ some (arm e.0 now))

-- No two entries hold the same timer.
abbrev pub Distinct : List Entry → Type 0
Distinct [] = Unit
Distinct (e ∷ l) = Absent e.1 l × Distinct l

pub Distinct-split :
    (xs ys : List Entry)
    → Distinct (xs ++ ys)
    → Distinct xs × Distinct ys × All (λ e. Absent e.1 ys) xs
Distinct-split [] ys h = (tt, h, tt)
Distinct-split (x ∷ xs) ys h =
    let (own, other) = All-split (λ f. f.1 ≢ x.1) xs ys h.0 in
    let (dx, dy, apart) = Distinct-split xs ys h.1 in ((own, dx), dy, (other, apart))

different_times : (e f : Entry) → entry_ltb e f ≡ true → e.0 ≡ f.0 → e.1 ≢ f.1
different_times e f h p q = ground (arith, ap pos_part p, ap neg_part p)

module _ {d : Double} (store : Address → Timer d) where
  later-Absent :
      (e : Entry) (l : List Entry)
      → IsEntry store e
      → All (λ f. entry_ltb e f ≡ true) l
      → All (IsEntry store) l
      → Absent e.1 l
  later-Absent e [] k h es = tt
  later-Absent e (f ∷ l) k h es = (
    λ same.
        different_times e f h.0
          (sym k.keyed ∙ ap (λ a. (store a).expiration) (sym same) ∙ es.0.keyed) (sym same),
    later-Absent e l k h.1 es.1,
  )

  pub entries-Distinct :
      (l : List Entry) → OrderedSet.Sorted entry_ltb l → All (IsEntry store) l → Distinct l
  entries-Distinct [] s es = tt
  entries-Distinct (e ∷ l) s es = (later-Absent e l es.0 s.0 es.1, entries-Distinct l s.1 es.1)
