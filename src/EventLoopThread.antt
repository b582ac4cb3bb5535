-- ===== src/EventLoopThread.antt =====
-- EventLoopThread.h and EventLoopThread.cpp: a thread that runs an event loop of its own. What
-- `thread_.start()` does before it returns is Thread's; here it is one step. The mutex makes each
-- critical section one step.
pub mod Handshake
pub mod Destructor
mod Tests
use second_gear.Common.{Bool, true, false, ◌≡◌, not, Result, ok, err, null_pointer, if◌then◌else◌}
use second_gear.EventLoop as Loop
use second_gear.EventLoop.{EventLoop, create, begin_loop, end_loop, handle_read}
use second_gear.Latch.{Waiter, outside, asleep, woken, returned, notified}

-- The thread that owns the object: before `startLoop()`, in its loop over `cond_.wait()`, after it, in
-- the destructor's `join()`, and after that.
pub data Owner : Type 0 where
  before : Owner
  waiting : Waiter → Owner
  ready : Owner
  joining : Owner
  joined : Owner

-- The new thread in `threadFunc()`: not there, before it writes `loop_`, after it, in `loop()`, and
-- after that.
pub data Runner : Type 0 where
  unborn : Runner
  constructing : Runner
  published : Runner
  looping : Runner
  ended : Runner

-- `has_loop` is `loop_ != nullptr`, and `loop` the loop in the frame of `threadFunc()`.
pub record EventLoopThread : Type 0 where
  pub has_loop : Bool
  pub exiting : Bool
  pub loop : EventLoop
  pub owner : Owner
  pub runner : Runner

abbrev pub new_thread : EventLoopThread
new_thread = record {
  has_loop = false;
  exiting = false;
  loop = create;
  owner = before;
  runner = unborn;
}

-- With the mutex: the test of the loop in `startLoop()`, and what follows from it.
abbrev pub tested : Bool → Owner
tested has_loop = if has_loop then ready else waiting asleep

-- `cond_.notify()`, as the owner sees it.
abbrev pub told : Owner → Owner
told before = before
told (waiting w) = waiting (notified true w)
told ready = ready
told joining = joining
told joined = joined

-- The critical section of `threadFunc()`.
abbrev pub publish : EventLoopThread → EventLoopThread
publish s = record s { has_loop = true; owner = told s.owner; runner = published }

-- The destructor up to `join()`, from another thread than the loop's.
unfoldable pub destroy : EventLoopThread → Result EventLoopThread
destroy s =
    if s.has_loop
    then ok (record s { exiting = true; loop = Loop.quit s.loop false; owner = joining })
    else err null_pointer

-- One step of the owner or of the new thread. Nothing but the destructor calls `quit()`.
pub data Step (s : EventLoopThread) : EventLoopThread → Type 0 where
  starts : s.owner ≡ before → Step s (record s { owner = waiting outside; runner = constructing })
  enters : s.owner ≡ waiting outside → Step s (record s { owner = tested s.has_loop })
  wakes : s.owner ≡ waiting asleep → Step s (record s { owner = waiting woken })
  retests : s.owner ≡ waiting woken → Step s (record s { owner = tested s.has_loop })
  publishes : s.runner ≡ constructing → Step s (publish s)
  begins :
      {l : EventLoop}
      → s.runner ≡ published
      → begin_loop s.loop ≡ ok l
      → Step s (record s { loop = l; runner = looping })
  turns : s.runner ≡ looping → s.loop.quit ≡ false → Step s (record s { loop = handle_read s.loop })
  ends :
      s.runner ≡ looping
      → s.loop.quit ≡ true
      → Step s (record s { loop = end_loop s.loop; runner = ended })
  destroys : {t : EventLoopThread} → s.owner ≡ ready → destroy s ≡ ok t → Step s t
  joins : s.owner ≡ joining → s.runner ≡ ended → Step s (record s { owner = joined })

pub data Steps : EventLoopThread → EventLoopThread → Type 0 where
  done : {s : EventLoopThread} → Steps s s
  next : {s t u : EventLoopThread} → Step s t → Steps t u → Steps s u
