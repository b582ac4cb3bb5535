-- ===== src/Loops/Tests.antt =====
-- A process with one thread's loop, and another thread that has none.
use second_gear.Common.{ℕ, ◌≢◌, arith, none, some, some-injective, sym, ap, ◌∙◌, subst, ℕ_discrete}
use second_gear.Channel.{Channel, new_channel}
use second_gear.Poller.{ChannelPtr, create}
use second_gear.EventLoop
use second_gear.Net.{success}
use second_gear.Loops.{Loop, Process, Resources, new_event_loop}
use second_gear.Loops.Open.{Opened, Constructs, new_event_loop-Constructs}
use second_gear.Loops.Confined.{Owned, Fits, Keeps, Calls, opens, done, next, Calls-Keeps}

abbrev store : ChannelPtr → Channel
store p = new_channel 5

abbrev empty_loop : Loop
empty_loop = record {
  thread_id = 0;
  wakeup_fd = 0;
  functors = second_gear.EventLoop.create;
  poller = create store;
}

-- No thread has a loop.
abbrev idle : Process
idle = record { loop_in_this_thread = λ t. none; loops = λ p. empty_loop; owner_loop = λ c. 0 }

abbrev resources : Resources
resources = record {
  eventfd = success 4;
  timerfd = success 3;
  store = store;
  wakeup_channel = 21;
  timerfd_channel = 20;
}

one-Constructs :
    Constructs idle 100 1 resources 7 8
      (success 4)
      (success 3)
      none
      (new_event_loop idle 100 1 resources 7 8)
one-Constructs = new_event_loop-Constructs idle 100 1 resources 7 8 (omega arith) (omega arith)

new_event_loop-Constructs_example :
    Constructs idle 100 1 resources 7 8
      (success 4)
      (success 3)
      none
      (new_event_loop idle 100 1 resources 7 8)
new_event_loop-Constructs_example =
    new_event_loop-Constructs idle 100 1 resources 7 8 (omega arith) (omega arith)

abbrev one : Process
one = one-Constructs.0

-- Thread 100 has loop 1; thread 200 makes loop 2.
idle-Owned : Owned idle
idle-Owned t p h = cc

one-Calls : Calls idle one
one-Calls = next done 100 (opens 1 resources 7 8) (λ t h. cc) one-Constructs.1

one-Opened : Opened idle 100 1 resources 4 3 7 8 one
one-Opened = one-Constructs.2

two-Constructs :
    Constructs one 200 2 resources 7 8
      (success 4)
      (success 3)
      none
      (new_event_loop one 200 2 resources 7 8)
two-Constructs =
    subst
      (λ c.
        Constructs one 200 2 resources 7 8 (success 4) (success 3) c
          (new_event_loop one 200 2 resources 7 8))
      (one-Opened.threads 200 (omega arith))
      (new_event_loop-Constructs one 200 2 resources 7 8 (omega arith) (omega arith))

two-Fits : Fits one (opens 2 resources 7 8)
two-Fits t h = elim (ℕ_discrete t 100) [
  | yes e ↦
      apart {a = 1} {b = 2} (omega arith)
        (sym one-Opened.current ∙ ap one.loop_in_this_thread (sym e) ∙ h)
  | no ne ↦ nothing (sym (one-Opened.threads t ne) ∙ h)
]
  where
    apart : {a b : ℕ} → a ≢ b → some a ≢ some b
    apart {a = a} {b = b} ne k = ne (some-injective a b k)

    nothing : {b : ℕ} → none ≢ some b
    nothing k = cc

Calls-Keeps_example : Keeps one two-Constructs.0 1
Calls-Keeps_example =
    Calls-Keeps idle-Owned one-Calls 200 (opens 2 resources 7 8) two-Fits two-Constructs.1 1
      (λ h. absurd (omega (arith, one-Opened.thread, h))) (omega arith)
