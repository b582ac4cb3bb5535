-- ===== src/EventLoop.antt =====
-- EventLoop.h and EventLoop.cpp: the functors that other threads hand to the loop, the descriptor that
-- wakes it, and the flags of the loop. A functor is an index; what a functor does to the loop when it
-- runs is a step of its own in Interleave. The mutex makes `push` and `begin_functors` atomic.
pub mod Interleave
pub mod Order
mod Tests
use second_gear.Common.{
  ℕ, ◌+◌, ◌-◌, ◌^◌, Bool, true, false, ◌||◌, not, List, [], ◌∷◌, ◌++◌, Result, ok, ◌>>◌, assert,
  ltb, if◌then◌else◌,
}

abbrev pub Functor : Type 0
Functor = ℕ

-- `wakeups` is the counter of the event descriptor, and `functors` the local variable of
-- `doPendingFunctors`. `calls` are the functors that have run, in order.
pub record EventLoop : Type 0 where
  pub looping : Bool
  pub quit : Bool
  pub calling_pending_functors : Bool
  pub wakeups : ℕ
  pub pending_functors : List Functor
  pub functors : List Functor
  pub calls : List Functor

unfoldable pub create : EventLoop
create = record {
  looping = false;
  quit = false;
  calling_pending_functors = false;
  wakeups = 0;
  pending_functors = [];
  functors = [];
  calls = [];
}

-- The counter of an event descriptor goes no further; `write` fails there, which is only printed.
abbrev pub max_wakeups : ℕ
max_wakeups = 2 ^ 64 - 2

abbrev pub wakeup : EventLoop → EventLoop
wakeup l = record l { wakeups = if ltb l.wakeups max_wakeups then l.wakeups + 1 else l.wakeups }

-- Reading the event descriptor sets it to 0.
abbrev pub handle_read : EventLoop → EventLoop
handle_read l = record l { wakeups = 0 }

abbrev pub push : EventLoop → Functor → EventLoop
push l cb = record l { pending_functors = l.pending_functors ++ (cb ∷ []) }

abbrev pub needs_wakeup : EventLoop → (in_loop : Bool) → Bool
needs_wakeup l in_loop = not in_loop || l.calling_pending_functors

unfoldable pub queue_in_loop : EventLoop → (in_loop : Bool) → Functor → EventLoop
queue_in_loop l in_loop cb =
    let pushed = push l cb in if needs_wakeup pushed in_loop then wakeup pushed else pushed

abbrev pub call : EventLoop → Functor → EventLoop
call l cb = record l { calls = l.calls ++ (cb ∷ []) }

unfoldable pub run_in_loop : EventLoop → (in_loop : Bool) → Functor → EventLoop
run_in_loop l in_loop cb = if in_loop then call l cb else queue_in_loop l in_loop cb

-- `doPendingFunctors` up to the loop over the functors, a turn of that loop, and the rest.
unfoldable pub begin_functors : EventLoop → EventLoop
begin_functors l = record l {
  calling_pending_functors = true;
  functors = l.pending_functors;
  pending_functors = [];
}

unfoldable pub call_next : EventLoop → Functor → List Functor → EventLoop
call_next l cb cbs = record (call l cb) { functors = cbs }

unfoldable pub end_functors : EventLoop → EventLoop
end_functors l = record l { calling_pending_functors = false }

-- The whole of it, when the functors do nothing to the loop.
unfoldable pub call_each : EventLoop → List Functor → EventLoop
call_each l [] = end_functors l
call_each l (cb ∷ cbs) = call_each (call_next l cb cbs) cbs

unfoldable pub do_pending_functors : EventLoop → EventLoop
do_pending_functors l = let begun = begin_functors l in call_each begun begun.functors

unfoldable pub quit : EventLoop → (in_loop : Bool) → EventLoop
quit l in_loop =
    let stopped = record l { quit = true } in if in_loop then stopped else wakeup stopped

-- `loop()` before its loop, and after it.
unfoldable pub begin_loop : EventLoop → Result EventLoop
begin_loop l = do assert (not l.looping); ok (record l { looping = true; quit = false })

abbrev pub end_loop : EventLoop → EventLoop
end_loop l = record l { looping = false }
