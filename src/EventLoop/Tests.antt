-- ===== src/EventLoop/Tests.antt =====
-- A run of the loop's thread and another one, and the theorems there.
use second_gear.Common.{◌≡◌, refl, true, [], ◌∷◌}
use second_gear.EventLoop.{
  EventLoop, create, push, queue_in_loop, begin_functors, call_next, end_functors, begin_loop,
}
use second_gear.EventLoop.Interleave.{
  System, running, start, Steps, done, next, pushes, tests, prepares, queues, begins, polls, swaps,
  calls, ends,
}
use second_gear.EventLoop.Order.{Awake, in_order, steps-in_order, steps-Awake}

-- The thread of the loop queues functor 9 before `loop()`, which takes it in its first turn. Another thread
-- pushes functor 1 while the loop is in `poll`; the loop returns from it for another reason, takes the
-- functor and runs it before it is woken up; the functor queues functor 2.
abbrev prepared : EventLoop
prepared = record (queue_in_loop create true 9) { looping = true }

abbrev first_turn : EventLoop
first_turn = end_functors (call_next (begin_functors prepared) 9 [])

abbrev queued_again : System
queued_again = record {
  loop = queue_in_loop (call_next (begin_functors (push first_turn 1)) 1 []) true 2;
  phase = running;
  in_flight = 0;
  waking = 1;
  queued = 9 ∷ 1 ∷ 2 ∷ [];
  early = [];
}

run : Steps start queued_again
unfolding create begin_functors call_next queue_in_loop end_functors begin_loop
run = next (prepares 9 refl) (
    next (begins {l = prepared} refl refl) (
      next (polls refl) (
        next (swaps refl) (
          next (calls {cb = 9} {cbs = []} refl refl) (
            next (ends refl refl) (
              next (pushes 1) (
                next (tests {n = 0} refl) (
                  next (polls refl) (
                    next (swaps refl) (
                      next (calls {cb = 1} {cbs = []} refl refl)
                        (next (queues 2 refl) done)))))))))))

steps-in_order_example : in_order queued_again.loop ≡ 9 ∷ 1 ∷ 2 ∷ []
steps-in_order_example = steps-in_order queued_again run

steps-Awake_example : Awake queued_again
steps-Awake_example = steps-Awake queued_again run

abbrev two_waiting : EventLoop
two_waiting = push (push create 1) 2
