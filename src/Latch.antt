-- ===== src/Latch.antt =====
-- thread/CountDownLatch.h and thread/CountDownLatch.cpp, over thread/MutexLock.h and
-- thread/Condition.h. The mutex makes each critical section one step; `cond.wait()` gives the mutex
-- up, so that it parts two sections. A sleeping thread may wake with no cause, as POSIX allows.
pub mod Waiting
mod Tests
use second_gear.Common.{Bool, true, false, ◌==◌, if◌then◌else◌}
use second_gear.Common.Int.{ℤ, pos, ◌-ℤ◌, ltb_ℤ, pos_part, neg_part}

-- The member `count`; the mutex and the condition show in the steps.
pub record CountDownLatch : Type 0 where
  pub count : ℤ

abbrev pub create : ℤ → CountDownLatch
create count = record { count = count }

-- The test of the loop in `wait()`.
abbrev pub must_wait : CountDownLatch → Bool
must_wait l = ltb_ℤ (pos 0) l.count

-- `countDown()`: the latch afterwards, and whether all that sleep are notified.
abbrev pub count_down : CountDownLatch → CountDownLatch × Bool
count_down l =
    let less : CountDownLatch = record { count = l.count -ℤ pos 1 } in
    (less, pos_part less.count == neg_part less.count)

-- A thread that calls `wait()`: before the call, in `cond.wait()`, awake again and without the mutex
-- yet, or after the call.
pub data Waiter : Type 0 where
  outside : Waiter
  asleep : Waiter
  woken : Waiter
  returned : Waiter

-- With the mutex: the test of the loop, and what follows from it.
abbrev pub tested : CountDownLatch → Waiter
tested l = if must_wait l then asleep else returned

-- `pthread_cond_broadcast`, as one thread sees it.
abbrev pub notified : Bool → Waiter → Waiter
notified all outside = outside
notified all asleep = if all then woken else asleep
notified all woken = woken
notified all returned = returned
