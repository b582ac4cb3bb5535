-- ===== src/TimerQueue/Delay.antt =====
-- `howMuchTimeFromNow`: what the timer descriptor is set to.
use second_gear.Common.{
  ℕ, ◌+◌, ◌*◌, ◌/◌, ◌≤◌, ◌<◌, ◌≡◌, refl, false, ◌⊎◌, inl, inr, arith, Bool-cases, ltb→lt,
}
use second_gear.Common.Int.{
  ℤ, pos, ◌+ℤ◌, ◌-ℤ◌, ◌<ℤ◌, negsuc, ltb_ℤ, pos_part, neg_part, +ℤ_parts, -ℤ_parts, eq_of_parts,
}
use second_gear.Time.{Timestamp, micros_per_second}
use second_gear.TimerQueue.{Timespec, delay_micros, how_much_time_from_now}

-- The time that a `timespec` stands for, in microseconds.
abbrev pub micros_of : Timespec → ℕ
micros_of ts = ts.tv_sec * micros_per_second + ts.tv_nsec / 1000

abbrev pub DelayOf : Timestamp → Timestamp → Timespec → Type 0
DelayOf when now ts =
    (ts.tv_nsec < 1000 * micros_per_second)
    × (100 ≤ micros_of ts)
    × ((now +ℤ pos (micros_of ts) ≡ when) ⊎ ((micros_of ts ≡ 100) × (when <ℤ now +ℤ pos 100)))

late_lem : (x : ℤ) → ltb_ℤ x (pos 100) ≡ false → (100 ≤ pos_part x) × (neg_part x ≡ 0)
late_lem (pos n) h = ground arith
late_lem (negsuc n) h = absurd (ground arith)

abbrev Delays : Timestamp → Timestamp → ℕ → Type 0
Delays when now n = (100 ≤ n) × ((now +ℤ pos n ≡ when) ⊎ ((n ≡ 100) × (when <ℤ now +ℤ pos 100)))

soon-Delays : (when now : Timestamp) → when -ℤ now <ℤ pos 100 → Delays when now 100
soon-Delays when now h =
    (omega arith, inr (refl, omega (arith, -ℤ_parts when now, +ℤ_parts now (pos 100))))

late-Delays :
    (when now : Timestamp)
    → ltb_ℤ (when -ℤ now) (pos 100) ≡ false
    → Delays when now (pos_part (when -ℤ now))
late-Delays when now h = (
  (late_lem (when -ℤ now) h).0,
  inl (
      eq_of_parts _ _ (
        omega (
          arith,
          late_lem (when -ℤ now) h,
          -ℤ_parts when now,
          +ℤ_parts now (pos (pos_part (when -ℤ now))),
        ))),
)

delay_micros-Delays : (when now : Timestamp) → Delays when now (delay_micros when now)
delay_micros-Delays when now = elim (Bool-cases (ltb_ℤ (when -ℤ now) (pos 100))) [
  | inl soon ↦ rw soon (soon-Delays when now (ltb→lt _ _ soon))
  | inr late ↦ rw late (late-Delays when now late)
]

micros_of_lem :
    (when now : Timestamp) → micros_of (how_much_time_from_now when now) ≡ delay_micros when now
unfolding how_much_time_from_now
micros_of_lem when now = omega arith

-- The `timespec` of `howMuchTimeFromNow` has less than a second of nanoseconds, and is 100
-- microseconds at least. It ends exactly at `when`, or 100 microseconds from now if `when` is
-- earlier than that.
pub how_much_time_from_now-DelayOf :
    (when now : Timestamp) → DelayOf when now (how_much_time_from_now when now)
how_much_time_from_now-DelayOf when now = (
  small,
  rw (micros_of_lem when now) (delay_micros-Delays when now).0,
  rw (micros_of_lem when now) (delay_micros-Delays when now).1,
)
  where
    small : (how_much_time_from_now when now).tv_nsec < 1000 * micros_per_second
    small = unfold how_much_time_from_now in omega arith
