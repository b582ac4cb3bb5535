-- ===== src/Thread/Start.antt =====
-- `start()`: what follows from the invariant for the owner and its wait.
use second_gear.Common.{ℕ, ◌≡◌}
use second_gear.Thread.{Owner, before, waiting, started, joining, joined, aborted, System, Steps}
use second_gear.Thread.Sound.{Sound}

module _ (gettid : ℕ) where
  -- `start()` can return from here.
  abbrev pub CanReturn : System → Type 0
  CanReturn s = (t : System) × Steps gettid s t × (t.owner ≡ started)

  -- While `start()` waits it can return; once it has, the number can be read; and it is never aborted.
  abbrev pub Starts : System → Owner → Type 0
  Starts s before = Unit
  Starts s (waiting w) = CanReturn s
  Starts s started = s.thread.tid ≡ gettid
  Starts s joining = s.thread.tid ≡ gettid
  Starts s joined = s.thread.tid ≡ gettid
  Starts s aborted = ⊥
