-- ===== src/Latch/Tests.antt =====
-- Two threads wait at a latch of two, which two others count down.
use second_gear.Common.{◌≡◌, refl, ◌⊎◌, true}
use second_gear.Common.Int.{pos}
use second_gear.Latch.{must_wait, asleep}
use second_gear.Latch.Waiting.{
  Waiters, start, moved, counted, Reach, begin, later, enters, counts, Comes, Fits, wait-Comes,
}

abbrev both_wait : Waiters
both_wait = record {
  latch = (start (pos 2)).latch;
  waiter = moved (moved (start (pos 2)).waiter 0 asleep) 1 asleep;
}

run : Reach (pos 2) (counted (counted both_wait))
run = later (later (later (later begin (enters 0 refl)) (enters 1 refl)) counts) counts

wait-Comes_example :
    Fits (counted (counted both_wait)).latch ((counted (counted both_wait)).waiter 1)
    × ((must_wait (counted (counted both_wait)).latch ≡ true)
        ⊎ Comes (counted (counted both_wait)) 1)
wait-Comes_example = wait-Comes run 1
