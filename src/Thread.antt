-- ===== src/Thread.antt =====
-- thread/Thread.h, thread/Thread.cpp and thread/CurrentThread.h: a thread that is started and joined.
-- `pthread_create`, `pthread_join` and `gettid` are steps and arguments; the name of the thread is a
-- list of characters.
pub mod Sound
pub mod Start
mod Tests
use second_gear.Common.{
  ℕ, ◌≡◌, Bool, true, false, ◌&&◌, not, List, [], ◌∷◌, Result, ok, err, Fault, ◌>>◌, assert, ltb,
  ◌==◌, if◌then◌else◌,
}
use second_gear.Common.Int.{pos}
use second_gear.Latch
use second_gear.Latch.{
  CountDownLatch, Waiter, outside, asleep, woken, returned, tested, count_down, notified,
}

-- The function to run and the handle of the system are left out.
pub record Thread : Type 0 where
  pub started : Bool
  pub joined : Bool
  pub tid : ℕ
  pub name : List ℕ
  pub latch : CountDownLatch

-- `setDefaultName()`; the characters are "Thread".
abbrev pub default_name : List ℕ → List ℕ
default_name [] = 84 ∷ 104 ∷ 114 ∷ 101 ∷ 97 ∷ 100 ∷ []
default_name (c ∷ cs) = c ∷ cs

abbrev pub create : List ℕ → Thread
create name = record {
  started = false;
  joined = false;
  tid = 0;
  name = default_name name;
  latch = second_gear.Latch.create (pos 1);
}

-- `CurrentThread::tid()`, with the cached number and what `gettid` would return: the number, which is
-- cached from then on.
abbrev pub current_tid : (cached : ℕ) → (gettid : ℕ) → ℕ
current_tid cached gettid = if cached == 0 then gettid else cached

-- `start()` up to `pthread_create`, after its failure, and after `latch.wait()`.
unfoldable pub begin_start : Thread → Result Thread
begin_start t = do assert (not t.started); ok (record t { started = true })

abbrev pub fail_start : Thread → Thread
fail_start t = record t { started = false }

unfoldable pub end_start : Thread → Result Thread
end_start t = do assert (ltb 0 t.tid); ok t

-- `join()` up to `pthread_join`.
unfoldable pub begin_join : Thread → Result Thread
begin_join t = do assert t.started; assert (not t.joined); ok (record t { joined = true })

-- Whether the destructor detaches the thread of the system.
abbrev pub detaches : Thread → Bool
detaches t = t.started && not t.joined

-- The thread that owns the object: before `start()`, in it after `pthread_create`, after it, in
-- `join()`, after it, or aborted by the assertion at the end of `start()`.
pub data Owner : Type 0 where
  before : Owner
  waiting : Waiter → Owner
  started : Owner
  joining : Owner
  joined : Owner
  aborted : Owner

-- The new thread in `runInThread()`: not there, at its beginning, with its number written, after
-- `countDown()`, or at its end.
pub data Runner : Type 0 where
  unborn : Runner
  begun : Runner
  numbered : Runner
  running : Runner
  finished : Runner

pub record System : Type 0 where
  pub thread : Thread
  pub owner : Owner
  pub runner : Runner

abbrev pub first : List ℕ → System
first name = record { thread = create name; owner = before; runner = unborn }

-- A broadcast, as the owner sees it.
abbrev pub told : Bool → Owner → Owner
told all before = before
told all (waiting w) = waiting (notified all w)
told all started = started
told all joining = joining
told all joined = joined
told all aborted = aborted

abbrev pub counted : System → System
counted s = record {
  thread = record s.thread { latch = (count_down s.thread.latch).0 };
  owner = told (count_down s.thread.latch).1 s.owner;
  runner = running;
}

-- One step of the owner or of the new thread, whose number is `gettid`.
pub data Step (gettid : ℕ) (s : System) : System → Type 0 where
  creates :
      {t : Thread}
      → s.owner ≡ before
      → begin_start s.thread ≡ ok t
      → Step gettid s (record { thread = t; owner = waiting outside; runner = begun })
  fails :
      {t : Thread}
      → s.owner ≡ before
      → begin_start s.thread ≡ ok t
      → Step gettid s (record s { thread = fail_start t })
  enters :
      s.owner ≡ waiting outside
      → Step gettid s (record s { owner = waiting (tested s.thread.latch) })
  wakes : s.owner ≡ waiting asleep → Step gettid s (record s { owner = waiting woken })
  retests :
      s.owner ≡ waiting woken → Step gettid s (record s { owner = waiting (tested s.thread.latch) })
  returns :
      {t : Thread}
      → s.owner ≡ waiting returned
      → end_start s.thread ≡ ok t
      → Step gettid s (record s { thread = t; owner = started })
  aborts :
      {f : Fault}
      → s.owner ≡ waiting returned
      → end_start s.thread ≡ err f
      → Step gettid s (record s { owner = aborted })
  joins :
      {t : Thread}
      → s.owner ≡ started
      → begin_join s.thread ≡ ok t
      → Step gettid s (record s { thread = t; owner = joining })
  ends : s.owner ≡ joining → s.runner ≡ finished → Step gettid s (record s { owner = joined })
  numbers :
      s.runner ≡ begun
      → Step gettid s
          (record s { thread = record s.thread { tid = current_tid 0 gettid }; runner = numbered })
  counts : s.runner ≡ numbered → Step gettid s (counted s)
  finishes : s.runner ≡ running → Step gettid s (record s { runner = finished })

pub data Steps (gettid : ℕ) : System → System → Type 0 where
  done : {s : System} → Steps gettid s s
  next : {s t u : System} → Step gettid s t → Steps gettid t u → Steps gettid s u
