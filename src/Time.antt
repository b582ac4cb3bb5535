-- ===== src/Time.antt =====
-- time/Timestamp.h, time/Timestamp.cpp, time/Timer.h and time/Timer.cpp.
-- A time stamp is its `microSecondsSinceEpoch_`. Sums of `int64_t` are exact here: a signed overflow
-- is undefined in the source, and the clock is far from it. `double` is an interface.
pub mod Text
mod Tests
use second_gear.Common.{ℕ, ◌+◌, ◌*◌, ◌≡◌, Bool, true, false, if◌then◌else◌, ◌==◌}
use second_gear.Common.Int.{ℤ, pos, ◌+ℤ◌, ◌-ℤ◌, ◌≤ℤ◌, ltb_ℤ, pos_part, neg_part}

abbrev pub Timestamp : Type 0
Timestamp = ℤ

abbrev pub micros_per_second : ℕ
micros_per_second = 1000 * 1000

-- `Timestamp()`, which `invalid()` returns
abbrev pub invalid : Timestamp
invalid = pos 0

abbrev pub valid : Timestamp → Bool
valid t = ltb_ℤ (pos 0) t

-- `operator<` and `operator==`
abbrev pub before : Timestamp → Timestamp → Bool
before = ltb_ℤ

abbrev pub same_time : Timestamp → Timestamp → Bool
same_time a b = pos_part a + neg_part b == pos_part b + neg_part a

-- `Timestamp::now`, of the `timeval` that `gettimeofday` fills in
abbrev pub now_of : (tv_sec tv_usec : ℕ) → Timestamp
now_of tv_sec tv_usec = pos (tv_sec * micros_per_second + tv_usec)

-- `timeDifference` in microseconds, before the division in floating point
abbrev pub difference_micros : Timestamp → Timestamp → ℤ
difference_micros high low = high -ℤ low

-- `double`, as far as the timers use it: the constant 0.0, the test `> 0.0`, and
-- `static_cast<int64_t>(seconds * kMicroSecondsPerSecond)`.
pub record Double : Type 1 where
  pub Seconds : Type 0
  pub zero_seconds : Seconds
  pub positive : Seconds → Bool
  pub to_micros : Seconds → ℤ
  pub positive-zero_seconds : positive zero_seconds ≡ false
  pub to_micros_nonneg : (s : Seconds) → positive s ≡ true → pos 0 ≤ℤ to_micros s

-- A callback is the number of a `std::function`.
abbrev pub Callback : Type 0
Callback = ℕ

pub record Timer (d : Double) : Type 0 where
  pub callback : Callback
  pub expiration : Timestamp
  pub interval : d.Seconds
  pub repeat : Bool

module _ (d : Double) where
  unfoldable pub add_time : Timestamp → d.Seconds → Timestamp
  add_time timestamp seconds = timestamp +ℤ d.to_micros seconds

  unfoldable pub new_timer : Callback → Timestamp → d.Seconds → Timer d
  new_timer cb when interval = record {
    callback = cb;
    expiration = when;
    interval = interval;
    repeat = d.positive interval;
  }

  unfoldable pub restart : Timer d → Timestamp → Timer d
  restart t now =
      if t.repeat
      then record t { expiration = add_time now t.interval }
      else record t { expiration = invalid }
