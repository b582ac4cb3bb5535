-- ===== src/Thread/Tests.antt =====
-- A run of `start()` in which the owner sleeps and the new thread wakes it.
use second_gear.Common.{refl, [], true}
use second_gear.Thread.{
  System, first, create, waiting, numbered, begin_start, counted, Steps, done, next, creates,
  enters, numbers, counts,
}
use second_gear.Latch.{asleep}

abbrev sleeping : System
sleeping = record {
  thread = record (create []) { started = true; tid = 42 };
  owner = waiting asleep;
  runner = numbered;
}

run : Steps 42 (first []) (counted sleeping)
unfolding begin_start
run = next (creates refl refl) (next (enters refl) (next (numbers refl) (next (counts refl) done)))
