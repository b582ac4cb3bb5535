-- ===== src/Time/Text/Digits.antt =====
-- The digits of a number, and the number that a text of digits stands for.
use second_gear.Common.{
  ℕ, zero, suc, ◌+◌, ◌-◌, ◌*◌, ◌/◌, ◌%◌, ◌≤◌, ◌<◌, ◌≡◌, refl, ap, ◌∙◌, List, [], ◌∷◌, ◌++◌, length,
  length-append, length-replicate, replicate, arith, ltb, Bool-cases, inl, inr, All, All-append,
}
use second_gear.Time.Text.{digits, zeros}

-- A number of `k` + 1 digits is below this.
abbrev pub bound : ℕ → ℕ
bound zero = 10
bound (suc k) = 10 * bound k

abbrev pub value_from : ℕ → List ℕ → ℕ
value_from start [] = start
value_from start (c ∷ cs) = value_from (start * 10 + (c - 48)) cs

value_from-snoc :
    (start : ℕ) (cs : List ℕ) (c : ℕ)
    → value_from start (cs ++ (c ∷ [])) ≡ value_from start cs * 10 + (c - 48)
value_from-snoc start [] c = refl
value_from-snoc start (d ∷ cs) c = value_from-snoc (start * 10 + (d - 48)) cs c

pub value_from-digits : (fuel n : ℕ) → n < bound fuel → value_from 0 (digits fuel n) ≡ n
unfolding digits
value_from-digits zero n h = omega arith
value_from-digits (suc fuel) n h = elim (Bool-cases (ltb n 10)) [
  | inl small ↦ rw small (ground arith)
  | inr large ↦ rw large (
      value_from-snoc 0 (digits fuel (n / 10)) (48 + n % 10)
      ∙ ap (λ v. v * 10 + (48 + n % 10 - 48)) (value_from-digits fuel (n / 10) (omega arith))
      ∙ omega arith)
]

pub length-digits : (fuel k n : ℕ) → n < bound k → length (digits fuel n) ≤ suc k
unfolding digits
length-digits zero k n h = omega arith
length-digits (suc fuel) zero n h = elim (Bool-cases (ltb n 10)) [
  | inl small ↦ rw small (omega arith)
  | inr large ↦ absurd (ground arith)
]
length-digits (suc fuel) (suc m) n h = elim (Bool-cases (ltb n 10)) [
  | inl small ↦ rw small (omega arith)
  | inr large ↦ rw large (
      omega (
        arith,
        length-append (digits fuel (n / 10)) ((48 + n % 10) ∷ []),
        length-digits fuel m (n / 10) (omega arith),
      ))
]

-- The characters of digits.
abbrev pub AreDigits : List ℕ → Type 0
AreDigits = All (λ c. 48 ≤ c)

pub digits-AreDigits : (fuel n : ℕ) → AreDigits (digits fuel n)
unfolding digits
digits-AreDigits zero n = (omega arith, tt)
digits-AreDigits (suc fuel) n = elim (Bool-cases (ltb n 10)) [
  | inl small ↦ rw small (omega arith, tt)
  | inr large ↦ rw large (
      All-append (λ c. 48 ≤ c) (digits fuel (n / 10)) ((48 + n % 10) ∷ [])
        (digits-AreDigits fuel (n / 10)) (omega arith, tt))
]

value_from-replicate : (k : ℕ) (cs : List ℕ) → value_from 0 (replicate k 48 ++ cs) ≡ value_from 0 cs
value_from-replicate zero cs = refl
value_from-replicate (suc k) cs = value_from-replicate k cs

pub value_from-zeros : (width : ℕ) (cs : List ℕ) → value_from 0 (zeros width cs) ≡ value_from 0 cs
value_from-zeros width cs = value_from-replicate (width - length cs) cs

pub length-zeros : (width : ℕ) (cs : List ℕ) → length cs ≤ width → length (zeros width cs) ≡ width
length-zeros width cs h = omega (
  arith,
  length-append (replicate (width - length cs) 48) cs,
  length-replicate {A = ℕ} (width - length cs) 48,
)
