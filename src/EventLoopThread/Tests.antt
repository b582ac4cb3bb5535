-- ===== src/EventLoopThread/Tests.antt =====
-- A run in which the owner sleeps until the new thread has written `loop_`.
use second_gear.Common.{◌≡◌, refl, ok}
use second_gear.Latch.{asleep}
use second_gear.EventLoopThread.{
  EventLoopThread, new_thread, publish, waiting, ready, joining, constructing, destroy, Steps, done,
  next, starts, enters, retests, publishes,
}
use second_gear.EventLoopThread.Handshake.{Starts, start_loop-Starts}
use second_gear.EventLoopThread.Destructor.{Joins, destroy-Joins}

abbrev sleeping : EventLoopThread
sleeping = record new_thread { owner = waiting asleep; runner = constructing }

run : Steps new_thread (publish sleeping)
run = next (starts refl) (next (enters refl) (next (publishes refl) done))

start_loop-Starts_example : Starts (publish sleeping) (publish sleeping).owner
start_loop-Starts_example = start_loop-Starts (publish sleeping) run

-- `startLoop()` has returned, and the new thread is not yet in `loop()`.
abbrev not_looping : EventLoopThread
not_looping = record (publish sleeping) { owner = ready }

not_looping_run : Steps new_thread not_looping
not_looping_run =
    next (starts refl) (next (enters refl) (next (publishes refl) (next (retests refl) done)))

destroy-Joins_example :
    (t : EventLoopThread) × (destroy not_looping ≡ ok t)
    × (t.owner ≡ joining)
    × Joins not_looping.runner t
destroy-Joins_example = destroy-Joins not_looping refl
