-- ===== src/EventLoop/Order.antt =====
-- Each functor runs once and in its turn, and none waits while the loop sleeps.
use second_gear.Common.{
  ℕ, suc, ◌+◌, ◌<◌, ◌≡◌, refl, sym, ap, ◌∙◌, ◌⊎◌, inl, inr, Bool, true, false, ok, not, assert,
  ◌>>=◌, if◌then◌else◌, List, [], ◌∷◌, ◌++◌, append_assoc, append-nil, arith, if-false, Bool-cases,
  subst,
}
use second_gear.EventLoop.{
  EventLoop, Functor, create, wakeup, push, needs_wakeup, queue_in_loop, begin_loop, begin_functors,
  call_next, end_functors, call_each, do_pending_functors,
}
use second_gear.EventLoop.Interleave.{
  System, Phase, starting, polling, handling, running, start, busy, Step, pushes, tests, wakes,
  prepares, queues, begins, polls, reads, swaps, calls, ends, Steps, done, next,
}

abbrev is_running : Phase → Bool
is_running starting = false
is_running polling = false
is_running handling = false
is_running running = true

-- What waits is what the thread of the loop pushed before `loop()`, and nothing else; or it will be run:
-- the swap is still to come, or a wake-up is, or one has come and has not been read.
abbrev pub Awake : System → Type 0
Awake s =
    (s.loop.pending_functors ≡ s.early)
    ⊎ (s.phase ≡ handling)
    ⊎ (0 < s.loop.wakeups + (s.in_flight + s.waking))

-- What has run, what is about to run, and what waits.
abbrev pub in_order : EventLoop → List Functor
in_order l = l.calls ++ (l.functors ++ l.pending_functors)

record Sound (s : System) : Type 0 where
  fifo : in_order s.loop ≡ s.queued
  calling : s.loop.calling_pending_functors ≡ is_running s.phase
  idle : is_running s.phase ≡ false → s.loop.functors ≡ []
  awake : Awake s

start-Sound : Sound start
unfolding create
start-Sound = record { fifo = refl; calling = refl; idle = λ h. refl; awake = inl refl }

wakeup-positive : (l : EventLoop) → 0 < (wakeup l).wakeups
wakeup-positive l = ground arith

pushed-fifo :
    (l : EventLoop) (cb : Functor) {q : List Functor}
    → in_order l ≡ q
    → in_order (push l cb) ≡ q ++ (cb ∷ [])
pushed-fifo l cb h =
    ap (λ r. l.calls ++ r) (sym (append_assoc l.functors l.pending_functors _))
    ∙ sym (append_assoc l.calls _ _)
    ∙ ap (λ r. r ++ (cb ∷ [])) h

-- After `wakeup` the counter is positive.
wakes-Awake : (s : System) (n : ℕ) → Awake (record s { loop = wakeup s.loop; waking = n })
wakes-Awake s n = inr (inr (omega (arith, wakeup-positive s.loop)))

-- Another thread that has tested goes on to call `wakeup`.
tests-Awake :
    (s : System) (n : ℕ)
    → Awake (record s {
      in_flight = n;
      waking = if needs_wakeup s.loop false then suc s.waking else s.waking;
    })
tests-Awake s n = inr (inr (omega arith))

busy-handling : (p : Phase) → busy p ≡ true → is_running p ≡ false → p ≡ handling
busy-handling starting h g = cc
busy-handling polling h g = cc
busy-handling handling h g = refl
busy-handling running h g = cc

-- Before `loop()` the thread of the loop only pushes.
prepares-Sound :
    (s : System) (cb : Functor)
    → Sound s
    → s.phase ≡ starting
    → Sound (record s {
      loop = queue_in_loop s.loop true cb;
      queued = s.queued ++ (cb ∷ []);
      early = s.early ++ (cb ∷ []);
    })
unfolding queue_in_loop
prepares-Sound s cb g h =
    subst
      (λ l.
        Sound (record s { loop = l; queued = s.queued ++ (cb ∷ []); early = s.early ++ (cb ∷ []) }))
      (sym (if-false _ _ (g.calling ∙ ap is_running h)))
      (record {
        fifo = pushed-fifo s.loop cb g.fifo;
        calling = g.calling;
        idle = g.idle;
        awake = elim g.awake [
          | inl only ↦ inl (ap (λ l. l ++ (cb ∷ [])) only)
          | inr woken ↦ inr woken
        ];
      })

-- What `begin_loop` leaves.
begun : (l m : EventLoop) → begin_loop l ≡ ok m → m ≡ record l { looping = true; quit = false }
unfolding begin_loop
begun l m h = started l.looping h
  where
    started : (on : Bool) {x : EventLoop} → assert (not on) >>= (λ checked. ok x) ≡ ok m → m ≡ x
    started true e = cc
    started false e = cc

not_starting : {p : Phase} {A : Type 0} → p ≡ starting → p ≡ handling → A
not_starting h g = cc

begins-Sound :
    (s : System)
    → Sound s
    → s.phase ≡ starting
    → Sound (record s { loop = record (s.loop) { looping = true; quit = false }; phase = polling })
begins-Sound s g h = record {
  fifo = g.fifo;
  calling = g.calling ∙ ap is_running h;
  idle = λ n. g.idle (ap is_running h);
  awake = elim g.awake [
    | inl only ↦ inl only
    | inr (inl handles) ↦ not_starting h handles
    | inr (inr woken) ↦ inr (inr woken)
  ];
}

queues-Sound :
    (s : System) (cb : Functor)
    → Sound s
    → busy s.phase ≡ true
    → Sound (record s { loop = queue_in_loop s.loop true cb; queued = s.queued ++ (cb ∷ []) })
unfolding queue_in_loop
queues-Sound s cb g on = elim (Bool-cases s.loop.calling_pending_functors) [
  | inl calling ↦ rw calling (record {
    fifo = pushed-fifo s.loop cb g.fifo;
    calling = sym calling ∙ g.calling;
    idle = g.idle;
    awake = inr (inr (omega (arith, wakeup-positive s.loop)));
  })
  | inr still ↦
      subst (λ l. Sound (record s { loop = l; queued = s.queued ++ (cb ∷ []) }))
        (sym (if-false _ _ still))
        (record {
          fifo = pushed-fifo s.loop cb g.fifo;
          calling = g.calling;
          idle = g.idle;
          awake = inr (inl (busy-handling s.phase on (sym g.calling ∙ still)));
        })
]

pushes-Sound :
    (s : System) (cb : Functor)
    → Sound s
    → Sound (record s {
      loop = push s.loop cb;
      in_flight = suc s.in_flight;
      queued = s.queued ++ (cb ∷ []);
    })
pushes-Sound s cb g = record {
  fifo = pushed-fifo s.loop cb g.fifo;
  calling = g.calling;
  idle = g.idle;
  awake = inr (inr (omega arith));
}

-- The loop takes the functors while it has none.
swaps-Sound :
    (s : System)
    → Sound s
    → s.phase ≡ handling
    → Sound (record s { loop = begin_functors s.loop; phase = running; early = [] })
unfolding begin_functors
swaps-Sound s g h = record {
  fifo =
      ap (λ l. s.loop.calls ++ l) (append-nil s.loop.pending_functors)
      ∙ ap (λ l. s.loop.calls ++ (l ++ s.loop.pending_functors)) (sym (g.idle (ap is_running h)))
      ∙ g.fifo;
  calling = refl;
  idle = λ n. cc;
  awake = inl refl;
}

-- Where the loop runs functors it does not handle events.
not_handling : {p : Phase} {A : Type 0} → p ≡ running → p ≡ handling → A
not_handling h g = cc

running-Awake :
    (s : System)
    → s.phase ≡ running
    → Awake s
    → (l : EventLoop) (p : Phase) → l.pending_functors ≡ s.loop.pending_functors
    → l.wakeups ≡ s.loop.wakeups
    → Awake (record s { loop = l; phase = p })
running-Awake s h a l p same count = elim a [
  | inl empty ↦ inl (same ∙ empty)
  | inr (inl handles) ↦ not_handling h handles
  | inr (inr awake) ↦ inr (inr (omega arith))
]

calls-Sound :
    (s : System) (cb : Functor) (cbs : List Functor)
    → Sound s
    → s.phase ≡ running
    → s.loop.functors ≡ cb ∷ cbs
    → Sound (record s { loop = call_next s.loop cb cbs })
unfolding call_next
calls-Sound s cb cbs g h more = record {
  fifo =
      append_assoc s.loop.calls (cb ∷ []) (cbs ++ s.loop.pending_functors)
      ∙ ap (λ l. s.loop.calls ++ (l ++ s.loop.pending_functors)) (sym more)
      ∙ g.fifo;
  calling = g.calling;
  idle = λ n. absurd (contradiction_of (sym (ap is_running h) ∙ n));
  awake = running-Awake s h g.awake (call_next s.loop cb cbs) s.phase refl refl;
}
  where
    contradiction_of : true ≡ false → ⊥
    contradiction_of e = cc

ends-Sound :
    (s : System)
    → Sound s
    → s.phase ≡ running
    → s.loop.functors ≡ []
    → Sound (record s { loop = end_functors s.loop; phase = polling })
unfolding end_functors
ends-Sound s g h empty = record {
  fifo = g.fifo;
  calling = refl;
  idle = λ n. empty;
  awake = running-Awake s h g.awake (end_functors s.loop) polling refl refl;
}

turn-Sound : {s t : System} → Sound s → Step s t → Sound t
turn-Sound {s} g (pushes cb) = pushes-Sound s cb g
turn-Sound {s} g (wakes {n = n} some_left) = record {
  fifo = g.fifo;
  calling = g.calling;
  idle = g.idle;
  awake = wakes-Awake s n;
}
turn-Sound {s} g (tests {n = n} some_left) = record {
  fifo = g.fifo;
  calling = g.calling;
  idle = g.idle;
  awake = tests-Awake s n;
}
turn-Sound {s} g (prepares cb h) = prepares-Sound s cb g h
turn-Sound {s} g (begins {l = l} h e) =
    subst (λ m. Sound (record s { loop = m; phase = polling })) (sym (begun s.loop l e))
      (begins-Sound s g h)
turn-Sound {s} g (queues cb on) = queues-Sound s cb g on
turn-Sound {s} g (polls h) = record {
  fifo = g.fifo;
  calling = g.calling ∙ ap is_running h;
  idle = λ n. g.idle (ap is_running h);
  awake = inr (inl refl);
}
turn-Sound {s} g (reads h) = record {
  fifo = g.fifo;
  calling = g.calling;
  idle = g.idle;
  awake = inr (inl h);
}
turn-Sound {s} g (swaps h) = swaps-Sound s g h
turn-Sound {s} g (calls {cb = cb} {cbs = cbs} h more) = calls-Sound s cb cbs g h more
turn-Sound {s} g (ends h empty) = ends-Sound s g h empty

turns-Sound : {s t : System} → Sound s → Steps s t → Sound t
turns-Sound g done = g
turns-Sound g (next step steps) = turns-Sound (turn-Sound g step) steps

-- However the loop's thread and the other threads take turns from the start: what has run, what the loop
-- is about to run and what waits are together all functors that were queued, each once, in the order of
-- their queueing.
pub steps-in_order : (s : System) → Steps start s → in_order s.loop ≡ s.queued
steps-in_order s steps = (turns-Sound start-Sound steps).fifo

-- However the loop's thread and the other threads take turns from the start, which is before `loop()`,
-- where nobody calls `quit`: what waits is only what the loop's thread itself has queued before `loop()`
-- and no swap has taken since; or the loop has yet to swap the functors in this turn, or a wake-up has been
-- written and not read, or some other thread that has queued a functor has yet to test whether to write one
-- or is about to write it.
pub steps-Awake : (s : System) → Steps start s → Awake s
steps-Awake s steps = (turns-Sound start-Sound steps).awake

-- Functors that do nothing to the loop: the turns of the loop of `doPendingFunctors`.
call_each-order :
    (l : EventLoop) (cbs : List Functor)
    → ((call_each l cbs).calls ≡ l.calls ++ cbs)
      × ((call_each l cbs).pending_functors ≡ l.pending_functors)
      × ((call_each l cbs).calling_pending_functors ≡ false)
unfolding call_each end_functors call_next
call_each-order l [] = (sym (append-nil l.calls), refl, refl)
call_each-order l (cb ∷ cbs) =
    let (order, same, off) = call_each-order (call_next l cb cbs) cbs in
    (order ∙ append_assoc l.calls (cb ∷ []) cbs, same, off)

-- `doPendingFunctors`, when the functors do nothing to the loop and no other thread queues one meanwhile:
-- the functors that waited run once each in the order in which they were queued, none waits any more, and
-- the loop no longer counts as calling functors.
do_pending_functors_lem :
    (l : EventLoop)
    → ((do_pending_functors l).calls ≡ l.calls ++ l.pending_functors)
      × ((do_pending_functors l).pending_functors ≡ [])
      × ((do_pending_functors l).calling_pending_functors ≡ false)
unfolding do_pending_functors begin_functors
do_pending_functors_lem l = call_each-order (begin_functors l) l.pending_functors
