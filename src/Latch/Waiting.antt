-- ===== src/Latch/Waiting.antt =====
-- Any number of threads at one latch: who sleeps, and who has come through.
use second_gear.Common.{
  ℕ, ◌≡◌, refl, sym, ◌∙◌, ◌⊎◌, inl, inr, Bool, true, false, ◌==◌, ==_iff, if◌then◌else◌, if-true,
  if-false, Bool-cases, arith, subst,
}
use second_gear.Common.Int.{ℤ, pos, -ℤ_parts}
use second_gear.Latch.{
  CountDownLatch, create, must_wait, count_down, Waiter, outside, asleep, woken, returned, tested,
  notified,
}

-- `waiter i` is where thread `i` stands.
pub record Waiters : Type 0 where
  pub latch : CountDownLatch
  pub waiter : ℕ → Waiter

abbrev pub start : ℤ → Waiters
start count = record { latch = create count; waiter = λ i. outside }

abbrev pub moved : (ℕ → Waiter) → ℕ → Waiter → ℕ → Waiter
moved f i w j = if i == j then w else f j

abbrev pub counted : Waiters → Waiters
counted s = record {
  latch = (count_down s.latch).0;
  waiter = λ i. notified (count_down s.latch).1 (s.waiter i);
}

-- Thread `i` calls `wait()`, wakes with no cause, or has the mutex again; or some thread calls
-- `countDown()`.
pub data Step (s : Waiters) : Waiters → Type 0 where
  enters :
      (i : ℕ)
      → s.waiter i ≡ outside
      → Step s (record s { waiter = moved s.waiter i (tested s.latch) })
  wakes : (i : ℕ) → s.waiter i ≡ asleep → Step s (record s { waiter = moved s.waiter i woken })
  retests :
      (i : ℕ)
      → s.waiter i ≡ woken
      → Step s (record s { waiter = moved s.waiter i (tested s.latch) })
  counts : Step s (counted s)

pub data Reach (count : ℤ) : Waiters → Type 0 where
  begin : Reach count (start count)
  later : {s t : Waiters} → Reach count s → Step s t → Reach count t

-- A thread sleeps only while the count is positive, and has come through only if it no longer is.
abbrev pub Fits : CountDownLatch → Waiter → Type 0
Fits l outside = Unit
Fits l asleep = must_wait l ≡ true
Fits l woken = Unit
Fits l returned = must_wait l ≡ false

pub tested-Fits : (l : CountDownLatch) → Fits l (tested l)
tested-Fits l = elim (Bool-cases (must_wait l)) [ inl w ↦ rw w w | inr r ↦ rw r r ]

-- The count passes zero: then all are notified.
pub last_count :
    (l : CountDownLatch)
    → must_wait l ≡ true
    → must_wait (count_down l).0 ≡ false
    → (count_down l).1 ≡ true
last_count l before after = ground (arith, -ℤ_parts l.count (pos 1))

pub open_stays : (l : CountDownLatch) → must_wait l ≡ false → must_wait (count_down l).0 ≡ false
open_stays l h = ground (arith, -ℤ_parts l.count (pos 1))

pub counted-Fits :
    (l : CountDownLatch) (w : Waiter)
    → Fits l w
    → Fits (count_down l).0 (notified (count_down l).1 w)
counted-Fits l outside h = tt
counted-Fits l asleep h = elim (Bool-cases (must_wait (count_down l).0)) [
  | inr through ↦ subst (Fits (count_down l).0) (sym (if-true _ _ (last_count l h through))) tt
  | inl more ↦ elim (Bool-cases (count_down l).1) [
    | inl all ↦ subst (Fits (count_down l).0) (sym (if-true _ _ all)) tt
    | inr quiet ↦ subst (Fits (count_down l).0) (sym (if-false _ _ quiet)) more
  ]
]
counted-Fits l woken h = tt
counted-Fits l returned h = open_stays l h

moved-Fits :
    (l : CountDownLatch) (f : ℕ → Waiter) (i : ℕ) (w : Waiter)
    → ((j : ℕ) → Fits l (f j))
    → Fits l w
    → (j : ℕ) → Fits l (moved f i w j)
moved-Fits l f i w all here j = elim (Bool-cases (i == j)) [
  | inl same ↦ subst (Fits l) (sym (if-true _ _ same)) here
  | inr other ↦ subst (Fits l) (sym (if-false _ _ other)) (all j)
]

moved_self : (f : ℕ → Waiter) (i : ℕ) (w : Waiter) → moved f i w i ≡ w
moved_self f i w = if-true _ _ ((==_iff i i).1 refl)

reach-Fits : {count : ℤ} {s : Waiters} → Reach count s → (i : ℕ) → Fits s.latch (s.waiter i)
reach-Fits begin i = tt
reach-Fits (later {s = s} r (enters j h)) i =
    moved-Fits s.latch s.waiter j _ (reach-Fits r) (tested-Fits s.latch) i
reach-Fits (later {s = s} r (wakes j h)) i = moved-Fits s.latch s.waiter j woken (reach-Fits r) tt i
reach-Fits (later {s = s} r (retests j h)) i =
    moved-Fits s.latch s.waiter j _ (reach-Fits r) (tested-Fits s.latch) i
reach-Fits (later {s = s} r counts) i = counted-Fits s.latch (s.waiter i) (reach-Fits r i)

-- Thread `i` has come through, or comes through by its own next step.
abbrev pub Comes : Waiters → ℕ → Type 0
Comes s i = (s.waiter i ≡ returned) ⊎ ((t : Waiters) × Step s t × (t.waiter i ≡ returned))

returns-Comes :
    (s : Waiters) (i : ℕ) (w : Waiter)
    → s.waiter i ≡ w
    → Fits s.latch w
    → must_wait s.latch ≡ false
    → Comes s i
returns-Comes s i outside e h through =
    inr (_, enters i e, moved_self s.waiter i _ ∙ if-false _ _ through)
returns-Comes s i asleep e h through = absurd (contradiction_of h through)
  where
    contradiction_of : {b : Bool} → b ≡ true → b ≡ false → ⊥
    contradiction_of g k = cc
returns-Comes s i woken e h through =
    inr (_, retests i e, moved_self s.waiter i _ ∙ if-false _ _ through)
returns-Comes s i returned e h through = inl e

-- Any number of threads at a latch, some in `wait()` and some in `countDown()`, in any order and with
-- wake-ups that have no cause. A thread that sleeps sleeps while the count is positive, so that it has
-- missed no notification; a thread that has come through did so when the count was not positive, and it
-- still is not; and either the count is positive, or the thread has come through or does so by its own
-- next step.
pub wait-Comes :
    {count : ℤ} {s : Waiters}
    → Reach count s
    → (i : ℕ) → Fits s.latch (s.waiter i) × ((must_wait s.latch ≡ true) ⊎ Comes s i)
wait-Comes {s = s} r i = (
  reach-Fits r i,
  elim (Bool-cases (must_wait s.latch)) [
    | inl shut ↦ inl shut
    | inr through ↦ inr (returns-Comes s i (s.waiter i) refl (reach-Fits r i) through)
  ],
)
