-- ===== src/EventLoop/Interleave.antt =====
-- The loop's thread and the others, step by step, while the loop goes on: `quit` is not among the steps.
use second_gear.Common.{ℕ, suc, ◌≡◌, Bool, true, false, List, [], ◌∷◌, ◌++◌, ok, if◌then◌else◌}
use second_gear.EventLoop.{
  EventLoop, Functor, create, wakeup, handle_read, push, needs_wakeup, queue_in_loop, begin_loop,
  begin_functors, call_next, end_functors,
}

-- Where the thread of the loop is: not yet in `loop()`, in `poll` or on the way to it, with the active
-- channels, or in `doPendingFunctors` after the swap.
pub data Phase : Type 0 where
  starting : Phase
  polling : Phase
  handling : Phase
  running : Phase

-- `in_flight` counts the other threads that have pushed a functor and not yet tested whether to call
-- `wakeup`, and `waking` those that have decided to call it and not yet done so. `queued` is all that was
-- ever pushed, and `early` what the thread of the loop itself has pushed before `loop()` and what has not
-- been swapped out since.
pub record System : Type 0 where
  pub loop : EventLoop
  pub phase : Phase
  pub in_flight : ℕ
  pub waking : ℕ
  pub queued : List Functor
  pub early : List Functor

abbrev pub start : System
start = record {
  loop = create;
  phase = starting;
  in_flight = 0;
  waking = 0;
  queued = [];
  early = [];
}

-- The thread of the loop runs code of the user.
abbrev pub busy : Phase → Bool
busy starting = false
busy polling = false
busy handling = true
busy running = true

-- One step of one thread.
pub data Step : System → System → Type 0 where
  -- Another thread is in `queueInLoop`: it pushes, it tests, and it calls `wakeup` if the test says so.
  pushes :
      {s : System} (cb : Functor)
      → Step s (record s {
        loop = push s.loop cb;
        in_flight = suc s.in_flight;
        queued = s.queued ++ (cb ∷ []);
      })
  tests :
      {s : System} {n : ℕ}
      → s.in_flight ≡ suc n
      → Step s (record s {
        in_flight = n;
        waking = if needs_wakeup s.loop false then suc s.waking else s.waking;
      })
  wakes :
      {s : System} {n : ℕ}
      → s.waking ≡ suc n
      → Step s (record s { loop = wakeup s.loop; waking = n })
  -- The thread of the loop calls `queueInLoop`: before `loop()`, or in a callback or a functor.
  prepares :
      {s : System} (cb : Functor)
      → s.phase ≡ starting
      → Step s (record s {
        loop = queue_in_loop s.loop true cb;
        queued = s.queued ++ (cb ∷ []);
        early = s.early ++ (cb ∷ []);
      })
  queues :
      {s : System} (cb : Functor)
      → busy s.phase ≡ true
      → Step s (record s { loop = queue_in_loop s.loop true cb; queued = s.queued ++ (cb ∷ []) })
  begins :
      {s : System} {l : EventLoop}
      → s.phase ≡ starting
      → begin_loop s.loop ≡ ok l
      → Step s (record s { loop = l; phase = polling })
  polls : {s : System} → s.phase ≡ polling → Step s (record s { phase = handling })
  reads : {s : System} → s.phase ≡ handling → Step s (record s { loop = handle_read s.loop })
  swaps :
      {s : System}
      → s.phase ≡ handling
      → Step s (record s { loop = begin_functors s.loop; phase = running; early = [] })
  calls :
      {s : System} {cb : Functor} {cbs : List Functor}
      → s.phase ≡ running
      → s.loop.functors ≡ cb ∷ cbs
      → Step s (record s { loop = call_next s.loop cb cbs })
  ends :
      {s : System}
      → s.phase ≡ running
      → s.loop.functors ≡ []
      → Step s (record s { loop = end_functors s.loop; phase = polling })

pub data Steps : System → System → Type 0 where
  done : {s : System} → Steps s s
  next : {s t u : System} → Step s t → Steps t u → Steps s u
