-- ===== src/Common/OrderedSet.antt =====
-- `std::set` as the list of its elements in order, over the comparison that it is given.
use mathlib.Core.List.Perm
use second_gear.Common.Lists.{All, All-map, All-split}
use second_gear.Common.Tests.{if◌then◌else◌, Bool-cases}
use mathlib.Core.Path.{◌≡◌, refl, ap}
use mathlib.Core.Logic.{◌⊎◌, inl, inr}
use mathlib.Core.Bool.{Bool, true, false}
use mathlib.Core.List.{List, [], ◌∷◌, ◌++◌, Perm}

module _ {ℓ} {A : Type ℓ} (ltb : A → A → Bool) where
  -- `set::insert`: the set, and whether the element is new.
  unfoldable pub insert : List A → A → List A × Bool
  insert [] x = (x ∷ [], true)
  insert (y ∷ ys) x =
      if ltb x y
      then (x ∷ y ∷ ys, true)
      else if ltb y x
      then (y ∷ (insert ys x).0, (insert ys x).1)
      else (y ∷ ys, false)

  -- `set::lower_bound` as the two parts that the iterator separates.
  unfoldable pub lower_bound : List A → A → List A × List A
  lower_bound [] k = ([], [])
  lower_bound (y ∷ ys) k =
      if ltb y k then (y ∷ (lower_bound ys k).0, (lower_bound ys k).1) else ([], y ∷ ys)

  abbrev pub Sorted : List A → Type ℓ
  Sorted [] = Unit
  Sorted (x ∷ xs) = All (λ y. ltb x y ≡ true) xs × Sorted xs

  pub insert-first :
      (y : A) (ys : List A) (x : A) → ltb x y ≡ true → insert (y ∷ ys) x ≡ (x ∷ y ∷ ys, true)
  unfolding insert
  insert-first y ys x h = rw h

  -- Otherwise the first element stays first.
  pub insert-later :
      (y : A) (ys : List A) (x : A)
      → ltb x y ≡ false
      → (zs : List A) × ((insert (y ∷ ys) x).0 ≡ y ∷ zs)
  unfolding insert
  insert-later y ys x h = elim (Bool-cases (ltb y x)) [
    | inl after ↦ ((insert ys x).0, rw (h, after))
    | inr same ↦ (ys, rw (h, same))
  ]

  pub All-insert {κ} : (P : A → Type κ) (l : List A) (x : A) → P x → All P l → All P (insert l x).0
  unfolding insert
  All-insert P [] x p h = (p, tt)
  All-insert P (y ∷ ys) x p h = elim (Bool-cases (ltb x y)) [
    | inl first ↦ rw first (p, h)
    | inr later ↦ elim (Bool-cases (ltb y x)) [
      | inl after ↦ rw (later, after) (h.0, All-insert P ys x p h.1)
      | inr same ↦ rw (later, same) h
    ]
  ]

  pub insert-Sorted :
      ((a b c : A) → ltb a b ≡ true → ltb b c ≡ true → ltb a c ≡ true)
      → (l : List A) (x : A) → Sorted l
      → Sorted (insert l x).0
  unfolding insert
  insert-Sorted trans [] x h = (tt, tt)
  insert-Sorted trans (y ∷ ys) x h = elim (Bool-cases (ltb x y)) [
    | inl first ↦ rw first (
      (first, All-map (λ z. ltb y z ≡ true) (λ z. ltb x z ≡ true) ys (λ z. trans x y z first) h.0),
      h,
    )
    | inr later ↦ elim (Bool-cases (ltb y x)) [
      | inl after ↦
          rw (later, after)
            (All-insert (λ z. ltb y z ≡ true) ys x after h.0, insert-Sorted trans ys x h.1)
      | inr same ↦ rw (later, same) h
    ]
  ]

  -- An element that differs from all others is new, and only it is added.
  pub insert-new :
      (l : List A) (x : A)
      → All (λ y. (ltb x y ≡ true) ⊎ (ltb y x ≡ true)) l
      → ((insert l x).1 ≡ true) × Perm (insert l x).0 (x ∷ l)
  unfolding insert
  insert-new [] x h = (refl, Perm.refl (x ∷ []))
  insert-new (y ∷ ys) x h = elim (Bool-cases (ltb x y)) [
    | inl first ↦ rw first (refl, Perm.refl (x ∷ y ∷ ys))
    | inr later ↦ elim (Bool-cases (ltb y x)) [
      | inl after ↦
          rw (later, after)
            (
              (insert-new ys x h.1).0,
              Perm.trans (Perm.cons y (insert-new ys x h.1).1) (Perm.swap x y ys),
            )
      | inr same ↦ absurd (neither (ltb x y) (ltb y x) later same h.0)
    ]
  ]
    where
      neither : (a b : Bool) → a ≡ false → b ≡ false → (a ≡ true) ⊎ (b ≡ true) → ⊥
      neither a b p q (inl r) = cc
      neither a b p q (inr r) = cc

  pub lower_bound-append : (l : List A) (k : A) → (lower_bound l k).0 ++ (lower_bound l k).1 ≡ l
  unfolding lower_bound
  lower_bound-append [] k = refl
  lower_bound-append (y ∷ ys) k = elim (Bool-cases (ltb y k)) [
    | inl below ↦ rw below (ap (◌∷◌ y) (lower_bound-append ys k))
    | inr above ↦ rw above
  ]

  pub lower_bound-below : (l : List A) (k : A) → All (λ y. ltb y k ≡ true) (lower_bound l k).0
  unfolding lower_bound
  lower_bound-below [] k = tt
  lower_bound-below (y ∷ ys) k = elim (Bool-cases (ltb y k)) [
    | inl below ↦ rw below (below, lower_bound-below ys k)
    | inr above ↦ rw above tt
  ]

  -- In a sorted list nothing from the bound on is below it.
  pub lower_bound-above :
      ((a b c : A) → ltb a b ≡ true → ltb b c ≡ true → ltb a c ≡ true)
      → (l : List A) (k : A) → Sorted l
      → All (λ y. ltb y k ≡ false) (lower_bound l k).1
  unfolding lower_bound
  lower_bound-above trans [] k h = tt
  lower_bound-above trans (y ∷ ys) k h = elim (Bool-cases (ltb y k)) [
    | inl below ↦ rw below (lower_bound-above trans ys k h.1)
    | inr above ↦ rw above (
      above,
      All-map (λ z. ltb y z ≡ true) (λ z. ltb z k ≡ false) ys (λ z p. beyond z above p) h.0,
    )
  ]
    where
      clash : (b : Bool) → b ≡ true → b ≡ false → ⊥
      clash b p q = cc

      beyond : (z : A) → ltb y k ≡ false → ltb y z ≡ true → ltb z k ≡ false
      beyond z above p = elim (Bool-cases (ltb z k)) [
        | inl below ↦ absurd (clash (ltb y k) (trans y z k p below) above)
        | inr not_below ↦ not_below
      ]

  -- The bound of a list that is split by it already.
  pub lower_bound-split :
      (xs ys : List A) (k : A)
      → All (λ y. ltb y k ≡ true) xs
      → All (λ y. ltb y k ≡ false) ys
      → lower_bound (xs ++ ys) k ≡ (xs, ys)
  unfolding lower_bound
  lower_bound-split [] [] k low high = refl
  lower_bound-split [] (y ∷ ys) k low high = rw high.0
  lower_bound-split (x ∷ xs) ys k low high =
      rw low.0 (ap (λ p. (x ∷ p.0, p.1)) (lower_bound-split xs ys k low.1 high))

  pub Sorted-split : (xs ys : List A) → Sorted (xs ++ ys) → Sorted xs × Sorted ys
  Sorted-split [] ys h = (tt, h)
  Sorted-split (x ∷ xs) ys h =
      let (first, later) = All-split (λ y. ltb x y ≡ true) xs ys h.0 in
      let (sx, sy) = Sorted-split xs ys h.1 in ((first, sx), sy)
