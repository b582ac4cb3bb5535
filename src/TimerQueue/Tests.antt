-- ===== src/TimerQueue/Tests.antt =====
-- Runs of the queue of timers, and the theorems at concrete queues.
use second_gear.Common.{
  ℕ, ◌≡◌, refl, if◌then◌else◌, ltb, List, [], ◌∷◌, ok, err, some, assertion, arith, Perm,
}
use second_gear.Common.Int.{pos, ◌≤ℤ◌, ◌-ℤ◌, ◌+ℤ◌}
use second_gear.Time.{Double, Timer, Timestamp, add_time}
use second_gear.TimerQueue.{
  Address, TimerQueue, Request, arm, add_timer, get_expired, handle_read, how_much_time_from_now,
}
use second_gear.TimerQueue.Delay.{DelayOf, how_much_time_from_now-DelayOf}
use second_gear.TimerQueue.Valid.{IsValid, Armed}
use second_gear.TimerQueue.Insert.{IsRequest, add_timer-Armed}
use second_gear.TimerQueue.Expire.{Expires, get_expired-Expires, handle_read-exactly_now}
use second_gear.TimerQueue.HandleRead.{requested, handle_read_lem}
use second_gear.TimerQueue.Restart.{due}

-- Whole microseconds for `double`.
abbrev micros : Double
micros = record {
  Seconds = ℕ;
  zero_seconds = 0;
  positive = ltb 0;
  to_micros = pos;
  positive-zero_seconds = refl;
  to_micros_nonneg = λ s h. micros_nonneg s;
}
  where
    micros_nonneg : (s : ℕ) → pos 0 ≤ℤ pos s
    micros_nonneg s = omega arith

abbrev timer_at : ℕ → Timestamp → ℕ → Timer micros
timer_at callback when interval = record {
  callback = callback;
  expiration = when;
  interval = interval;
  repeat = ltb 0 interval;
}

-- Callback 11 once at 100, callback 12 from 200 on every 50, and callback 13 once at 900.
abbrev store : Address → Timer micros
store a =
    if ltb a 2
    then timer_at 11 (pos 100) 0
    else if ltb a 3
    then timer_at 12 (pos 200) 50
    else timer_at 13 (pos 900) 0

abbrev three : TimerQueue micros
three = record {
  store = store;
  timers = (pos 100, 1) ∷ (pos 200, 2) ∷ (pos 900, 3) ∷ [];
  alarm = some (arm (pos 100) (pos 10));
}

three-IsValid : IsValid three
three-IsValid = record { sorted = ground arith; entries = ground arith }

-- The first callback asks for one more timer.
abbrev extra : Request micros
extra = record { callback = 14; when = pos 700; interval = 0; address = 4; now = pos 501 }

abbrev effects : ℕ → List (Request micros)
effects i = if ltb i 1 then extra ∷ [] else []

extra-IsRequest : IsRequest three.timers extra
extra-IsRequest = ground arith

how_much_example : (how_much_time_from_now (pos 3500000) (pos 1000000)).tv_nsec ≡ 500000000
unfolding how_much_time_from_now ◌-ℤ◌
how_much_example = refl

add_timer-Armed_example :
    (q' : TimerQueue micros) × (add_timer three extra ≡ ok q')
    × IsValid q'
    × Armed q'.alarm q'.timers
    × Perm q'.timers ((pos 700, 4) ∷ three.timers)
add_timer-Armed_example = add_timer-Armed three extra three-IsValid (pos 10, refl) extra-IsRequest

how_much_time_from_now-DelayOf_example :
    DelayOf (pos 50) (pos 20) (how_much_time_from_now (pos 50) (pos 20))
how_much_time_from_now-DelayOf_example = how_much_time_from_now-DelayOf (pos 50) (pos 20)

get_expired-Expires_example : Expires three (pos 500) (get_expired three (pos 500))
get_expired-Expires_example = get_expired-Expires three (pos 500) three-IsValid

handle_read-exactly_now_example : handle_read three (pos 200) (pos 201) effects ≡ err assertion
handle_read-exactly_now_example =
    handle_read-exactly_now three (pos 200) (pos 201) effects ((pos 100, 1) ∷ []) (pos 200, 2)
      ((pos 900, 3) ∷ []) three-IsValid refl refl

handle_read_lem_example :
    (q' : TimerQueue micros) × (handle_read three (pos 500) (pos 502) effects
      ≡ ok (11 ∷ 12 ∷ [], q'))
    × IsValid q'
    × Armed q'.alarm q'.timers
    × Perm q'.timers ((pos 550, 2) ∷ (pos 700, 4) ∷ (pos 900, 3) ∷ [])
unfolding requested due add_time ◌+ℤ◌
handle_read_lem_example =
    handle_read_lem three (pos 500) (pos 502) effects ((pos 100, 1) ∷ (pos 200, 2) ∷ [])
      ((pos 900, 3) ∷ []) three-IsValid (omega arith) refl (omega arith) (omega arith)
      (extra-IsRequest, tt)
