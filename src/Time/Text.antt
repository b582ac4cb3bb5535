-- ===== src/Time/Text.antt =====
-- time/Timestamp.cpp, the functions toString and toFormattedString. The text is a list of characters: `-`
-- is 45, `.` 46, `0` 48 and `:` 58.
mod Digits
pub mod Reading
use second_gear.Common.{
  ℕ, zero, suc, ◌+◌, ◌-◌, ◌/◌, ◌%◌, List, [], ◌∷◌, ◌++◌, take, length, replicate, ltb,
  if◌then◌else◌,
}
use second_gear.Common.Int.{ℤ, pos, negsuc, ◌+ℤ◌}
use second_gear.Time.{Timestamp, micros_per_second}

-- A number in decimal, of at most `fuel` + 1 digits.
unfoldable pub digits : (fuel : ℕ) → ℕ → List ℕ
digits zero n = (48 + n % 10) ∷ []
digits (suc fuel) n =
    let rest = digits fuel (n / 10) in
    if ltb n 10 then ((48 + n) ∷ []) else (rest ++ ((48 + n % 10) ∷ []))

-- A number below 2^64 has at most 20 digits.
abbrev pub decimal : ℕ → List ℕ
decimal n = digits 19 n

-- The negative of a number.
abbrev pub negated : ℕ → ℤ
negated zero = pos 0
negated (suc n) = negsuc n

-- `/` and `%` of C, which go towards 0.
abbrev pub quotient : ℤ → ℕ → ℤ
quotient (pos n) m = pos (n / m)
quotient (negsuc n) m = negated (suc n / m)

abbrev pub remainder : ℤ → ℕ → ℤ
remainder (pos n) m = pos (n % m)
remainder (negsuc n) m = negated (suc n % m)

abbrev zeros : (width : ℕ) → List ℕ → List ℕ
zeros width text = replicate (width - length text) 48 ++ text

-- `%d`, and `%0` with a width, where the sign counts.
unfoldable pub print_int : ℤ → List ℕ
print_int (pos n) = decimal n
print_int (negsuc n) = 45 ∷ decimal (suc n)

unfoldable pub print_padded : (width : ℕ) → ℤ → List ℕ
print_padded width (pos n) = zeros width (decimal n)
print_padded width (negsuc n) = 45 ∷ zeros (width - 1) (decimal (suc n))

-- `snprintf` is told of one byte less than the 32 that there are, and puts the end into the last.
unfoldable pub to_string : Timestamp → List ℕ
to_string t = take 30 (
    print_int (quotient t micros_per_second)
    ++ (46 ∷ print_padded 6 (remainder t micros_per_second)))

-- `struct tm`, as `gmtime_r` fills it in; the year counts from 1900, the month from 0.
pub record Tm : Type 0 where
  pub tm_year : ℤ
  pub tm_mon : ℤ
  pub tm_mday : ℤ
  pub tm_hour : ℤ
  pub tm_min : ℤ
  pub tm_sec : ℤ

-- `%4d`; a space is 32.
unfoldable pub print_wide : (width : ℕ) → ℤ → List ℕ
print_wide width n = let text = print_int n in replicate (width - length text) 32 ++ text

unfoldable pub to_formatted_string : (gmtime : ℤ → Tm) → Timestamp → List ℕ
to_formatted_string gmtime t =
    let tm = gmtime (quotient t micros_per_second) in
    take 63 (
      print_wide 4 (tm.tm_year +ℤ pos 1900)
      ++ print_padded 2 (tm.tm_mon +ℤ pos 1)
      ++ print_padded 2 tm.tm_mday
      ++ (32 ∷ print_padded 2 tm.tm_hour)
      ++ (58 ∷ print_padded 2 tm.tm_min)
      ++ (58 ∷ print_padded 2 tm.tm_sec)
      ++ (46 ∷ print_padded 6 (remainder t micros_per_second)))
