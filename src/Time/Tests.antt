-- ===== src/Time/Tests.antt =====
-- The text of a time stamp: 1 second and 5 microseconds.
use second_gear.Common.{◌≡◌, ◌≤◌, refl, arith, [], ◌∷◌, length}
use second_gear.Common.Int.{pos, negsuc, ◌+ℤ◌}
use second_gear.Time.Text.{
  to_string, to_formatted_string, print_wide, digits, print_int, print_padded,
}
use second_gear.Time.Text.Reading.{split, read_time, read_time-to_string}

one_second : to_string (pos 1000005) ≡ 49 ∷ 46 ∷ 48 ∷ 48 ∷ 48 ∷ 48 ∷ 48 ∷ 53 ∷ []
unfolding to_string digits print_int print_padded
one_second = refl

-- 1500000 microseconds before the epoch, with two signs.
before_epoch : to_string (negsuc 1499999) ≡ 45 ∷ 49 ∷ 46 ∷ 45 ∷ 53 ∷ 48 ∷ 48 ∷ 48 ∷ 48 ∷ 48 ∷ []
unfolding to_string digits print_int print_padded
before_epoch = refl

read_time-to_string_example :
    (read_time (to_string (pos 1000005)) ≡ 1000005)
    × (length (split (to_string (pos 1000005))).1 ≡ 6)
    × (length (to_string (pos 1000005)) ≤ 20)
read_time-to_string_example = read_time-to_string 1000005 (omega arith)

-- The second of January 1970, 03:04:05 and 6 microseconds.
formatted :
    to_formatted_string
      (λ seconds. record {
        tm_year = pos 70;
        tm_mon = pos 0;
        tm_mday = pos 2;
        tm_hour = pos 3;
        tm_min = pos 4;
        tm_sec = pos 5;
      })
      (pos 97445000006)
    ≡ 49 ∷ 57 ∷ 55 ∷ 48 ∷ 48 ∷ 49 ∷ 48 ∷ 50 ∷ 32 ∷ 48 ∷ 51 ∷ 58 ∷ 48 ∷ 52 ∷ 58 ∷ 48 ∷ 53 ∷ 46 ∷ 48
      ∷ 48 ∷ 48 ∷ 48 ∷ 48 ∷ 54 ∷ []
unfolding to_formatted_string print_wide digits print_int print_padded ◌+ℤ◌
formatted = refl
