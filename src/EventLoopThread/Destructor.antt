-- ===== src/EventLoopThread/Destructor.antt =====
-- The destructor: it returns or not by whether the loop had begun.
use second_gear.Common.{◌≡◌, refl, ◌⊎◌, inl, inr, true, false, ok, if-true, arith}
use second_gear.EventLoop as Loop
use second_gear.EventLoop.{EventLoop, begin_loop, end_loop, handle_read}
use second_gear.EventLoopThread.{
  EventLoopThread, joining, joined, Runner, unborn, constructing, published, looping, ended,
  destroy, Step, starts, enters, wakes, retests, publishes, begins, turns, ends, destroys, joins,
  Steps, done, next,
}

-- The destructor waits, and the loop will not end.
abbrev Lost : EventLoopThread → Type 0
Lost s =
    (s.owner ≡ joining) × ((s.runner ≡ published) ⊎ ((s.runner ≡ looping) × (s.loop.quit ≡ false)))

begin_loop-quit : (l : EventLoop) {m : EventLoop} → begin_loop l ≡ ok m → m.quit ≡ false
unfolding begin_loop
begin_loop-quit l h = ground arith

one_more-Lost : {s t : EventLoopThread} → Lost s → Step s t → Lost t
one_more-Lost (o, r) (starts e) = cc
one_more-Lost (o, r) (enters e) = cc
one_more-Lost (o, r) (wakes e) = cc
one_more-Lost (o, r) (retests e) = cc
one_more-Lost (o, inl p) (publishes e) = cc
one_more-Lost (o, inr (l, q)) (publishes e) = cc
one_more-Lost {s} (o, r) (begins e h) = (o, inr (refl, begin_loop-quit s.loop h))
one_more-Lost (o, inl p) (turns e q) = cc
one_more-Lost (o, inr (l, q)) (turns e r) = (o, inr (l, q))
one_more-Lost (o, inl p) (ends e q) = cc
one_more-Lost (o, inr (l, q)) (ends e r) = cc
one_more-Lost (o, r) (destroys e h) = cc
one_more-Lost (o, inl p) (joins e f) = cc
one_more-Lost (o, inr (l, q)) (joins e f) = cc

stays-Lost : {s t : EventLoopThread} → Lost s → Steps s t → Lost t
stays-Lost h done = h
stays-Lost h (next step steps) = stays-Lost (one_more-Lost h step) steps

-- `quit()` from another thread sets the flag, and does nothing else but wake the loop.
quit-eq : (l : EventLoop) → (Loop.quit l false).quit ≡ true
unfolding Loop.quit
quit-eq l = refl

destroy-eq :
    (s : EventLoopThread)
    → s.has_loop ≡ true
    → destroy s ≡ ok (record s { exiting = true; loop = Loop.quit s.loop false; owner = joining })
unfolding destroy
destroy-eq s h = if-true _ _ h

-- What becomes of the destructor in `join()`, by where the new thread was when `quit()` was called.
abbrev pub Joins : Runner → EventLoopThread → Type 0
Joins unborn t = Unit
Joins constructing t = Unit
Joins published t = (u : EventLoopThread) → Steps t u → u.owner ≡ joining
Joins looping t =
    (u : EventLoopThread) × Steps t u
    × (u.owner ≡ joined)
    × (u.runner ≡ ended)
    × (u.loop.looping ≡ false)
Joins ended t = (u : EventLoopThread) × Steps t u × (u.owner ≡ joined)

quit-Joins :
    (s : EventLoopThread) (r : Runner)
    → s.runner ≡ r
    → Joins r (record s { exiting = true; loop = Loop.quit s.loop false; owner = joining })
quit-Joins s unborn e = tt
quit-Joins s constructing e = tt
quit-Joins s published e = λ u steps. (stays-Lost (refl, inl e) steps).0
quit-Joins s looping e =
    (_, next (ends e (quit-eq s.loop)) (next (joins refl refl) done), refl, refl, refl)
quit-Joins s ended e = (_, next (joins refl e) done, refl)

-- The destructor when `loop_` is not null, where nothing else calls `quit()`: it comes to `join()`. If the
-- new thread has written `loop_` and not yet entered `loop()`, then the destructor never returns, however
-- the two threads take turns, since `loop()` clears the flag that `quit()` has set. If the new thread is
-- in `loop()` or past it, there are steps with which the loop ends and the destructor returns.
pub destroy-Joins :
    (s : EventLoopThread)
    → s.has_loop ≡ true
    → (t : EventLoopThread) × (destroy s ≡ ok t) × (t.owner ≡ joining) × Joins s.runner t
destroy-Joins s h = (
  record s { exiting = true; loop = Loop.quit s.loop false; owner = joining },
  destroy-eq s h,
  refl,
  quit-Joins s s.runner refl,
)
