-- ===== src/Time/Text/Reading.antt =====
-- What a time stamp prints as, read again.
use second_gear.Common.{
  ℕ, ◌+◌, ◌*◌, ◌/◌, ◌%◌, ◌^◌, ◌≤◌, ◌<◌, ◌≡◌, refl, ap, ap₂, ◌∙◌, List, [], ◌∷◌, ◌++◌, length,
  length-append, take_all, arith, ◌==◌, Bool-cases, inl, inr, if◌then◌else◌,
}
use second_gear.Common.Int.{pos}
use second_gear.Time.{micros_per_second}
use second_gear.Time.Text.{decimal, zeros, print_int, print_padded, to_string}
use second_gear.Time.Text.Digits.{
  value_from, value_from-digits, length-digits, AreDigits, digits-AreDigits, value_from-zeros,
  length-zeros,
}

-- What stands before the first dot, and behind it.
pub split : List ℕ → List ℕ × List ℕ
split [] = ([], [])
split (c ∷ cs) = let rest = split cs in if c == 46 then ([], cs) else (c ∷ rest.0, rest.1)

-- The microseconds that the text of a time stamp stands for.
abbrev pub read_time : List ℕ → ℕ
read_time text =
    let parts = split text in value_from 0 parts.0 * micros_per_second + value_from 0 parts.1

split-dot : (cs ds : List ℕ) → AreDigits cs → split (cs ++ (46 ∷ ds)) ≡ (cs, ds)
unfolding split
split-dot [] ds h = refl
split-dot (c ∷ cs) ds h = elim (Bool-cases (c == 46)) [
  | inl dot ↦ absurd (ground arith)
  | inr other ↦ rw (other, split-dot cs ds h.1) refl
]

-- The whole text of a time stamp that is not before the epoch.
abbrev whole : ℕ → List ℕ
whole n = decimal (n / 1000000) ++ (46 ∷ zeros 6 (decimal (n % 1000000)))

whole-fraction : (n : ℕ) → length (zeros 6 (decimal (n % 1000000))) ≡ 6
whole-fraction n = length-zeros 6 _ (length-digits 19 5 (n % 1000000) (omega arith))

whole_short : (n : ℕ) → n < 2 ^ 63 → length (whole n) ≤ 20
whole_short n h = omega (
  arith,
  length-append (decimal (n / 1000000)) (46 ∷ zeros 6 (decimal (n % 1000000))),
  whole-fraction n,
  length-digits 19 12 (n / 1000000) (omega arith),
)

to_string-whole : (n : ℕ) → n < 2 ^ 63 → to_string (pos n) ≡ whole n
unfolding to_string print_int print_padded
to_string-whole n h = take_all 30 (whole n) (omega (arith, whole_short n h))

-- A time stamp that is not before the epoch, in the range of an `int64_t`: its text has a dot with six
-- characters behind it and is at most 20 characters long, and read as a number of seconds and one of
-- microseconds it stands for that time stamp. So two time stamps print apart, and the limit of 30
-- characters cuts nothing off.
pub read_time-to_string :
    (n : ℕ)
    → n < 2 ^ 63
    → (read_time (to_string (pos n)) ≡ n)
      × (length (split (to_string (pos n))).1 ≡ 6)
      × (length (to_string (pos n)) ≤ 20)
read_time-to_string n h =
    let e = to_string-whole n h in
    let parts = ap split e ∙ split-dot _ _ (digits-AreDigits 19 (n / 1000000)) in
    (
      ap₂ (λ a b. value_from 0 a * micros_per_second + value_from 0 b) (ap (λ p. p.0) parts)
            (ap (λ p. p.1) parts)
          ∙ ap₂ (λ a b. a * micros_per_second + b)
              (value_from-digits 19 (n / 1000000) (omega arith))
              (value_from-zeros 6 (decimal (n % 1000000))
                ∙ value_from-digits 19 (n % 1000000) (omega arith))
          ∙ omega arith,
      ap (λ p. length p.1) parts ∙ whole-fraction n,
      omega (arith, ap length e, whole_short n h),
    )
