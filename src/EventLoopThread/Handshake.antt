-- ===== src/EventLoopThread/Handshake.antt =====
-- `startLoop()`: it returns, and returns a loop.
use second_gear.Common.{◌≡◌, ◌≢◌, refl, sym, ap, ◌∙◌, Bool, true, false, ok, subst, if-true, arith}
use second_gear.Latch.{Waiter, outside, asleep, woken, returned, notified}
use second_gear.EventLoopThread.{
  EventLoopThread, Owner, before, waiting, ready, joining, joined, Runner, unborn, constructing,
  published, looping, ended, new_thread, publish, told, tested, destroy, Step, starts, enters,
  wakes, retests, publishes, begins, turns, ends, destroys, joins, Steps, done, next,
}

abbrev is_published : Runner → Bool
is_published unborn = false
is_published constructing = false
is_published published = true
is_published looping = true
is_published ended = true

-- Where the owner may stand.
abbrev Stands : Bool → Runner → Owner → Type 0
Stands has_loop r before = r ≡ unborn
Stands has_loop r (waiting outside) = r ≢ unborn
Stands has_loop r (waiting asleep) = (r ≢ unborn) × (has_loop ≡ false)
Stands has_loop r (waiting woken) = r ≢ unborn
Stands has_loop r (waiting returned) = ⊥
Stands has_loop r ready = (r ≢ unborn) × (has_loop ≡ true)
Stands has_loop r joining = r ≢ unborn
Stands has_loop r joined = r ≢ unborn

record Sound (s : EventLoopThread) : Type 0 where
  loop : s.has_loop ≡ is_published s.runner
  stands : Stands s.has_loop s.runner s.owner

tested-Stands : (has_loop : Bool) (r : Runner) → r ≢ unborn → Stands has_loop r (tested has_loop)
tested-Stands true r b = (b, refl)
tested-Stands false r b = (b, refl)

-- All that the new thread does later leaves the owner where it may stand.
runner-Stands :
    (h : Bool) (q r : Runner) (o : Owner) → q ≢ unborn → r ≢ unborn → Stands h q o → Stands h r o
runner-Stands h q r before b n s = absurd (b s)
runner-Stands h q r (waiting outside) b n s = n
runner-Stands h q r (waiting asleep) b n s = (n, s.1)
runner-Stands h q r (waiting woken) b n s = n
runner-Stands h q r (waiting returned) b n s = s
runner-Stands h q r ready b n s = (n, s.1)
runner-Stands h q r joining b n s = n
runner-Stands h q r joined b n s = n

publish-Stands :
    (h : Bool) (q : Runner) (o : Owner) → q ≢ unborn → Stands h q o → Stands true published (told o)
publish-Stands h q before b s = absurd (b s)
publish-Stands h q (waiting outside) b s = λ e. cc
publish-Stands h q (waiting asleep) b s = λ e. cc
publish-Stands h q (waiting woken) b s = λ e. cc
publish-Stands h q (waiting returned) b s = s
publish-Stands h q ready b s = (λ e. cc, refl)
publish-Stands h q joining b s = λ e. cc
publish-Stands h q joined b s = λ e. cc

abbrev at-Stands :
    (s : EventLoopThread) (o : Owner) → Sound s → s.owner ≡ o → Stands s.has_loop s.runner o
at-Stands s o g e = subst (Stands s.has_loop s.runner) e g.stands

destroy-inv :
    (s : EventLoopThread) {t : EventLoopThread}
    → destroy s ≡ ok t
    → (t.has_loop ≡ s.has_loop) × (t.runner ≡ s.runner) × (t.owner ≡ joining)
unfolding destroy
destroy-inv s h = ground arith

new_thread-Sound : Sound new_thread
new_thread-Sound = record { loop = refl; stands = refl }

one_more-Sound : {s t : EventLoopThread} → Sound s → Step s t → Sound t
one_more-Sound {s} g (starts e) = record {
  loop = g.loop ∙ ap is_published (at-Stands s before g e);
  stands = λ u. cc;
}
one_more-Sound {s} g (enters e) = record {
  loop = g.loop;
  stands = tested-Stands s.has_loop s.runner (at-Stands s (waiting outside) g e);
}
one_more-Sound {s} g (wakes e) = record {
  loop = g.loop;
  stands = (at-Stands s (waiting asleep) g e).0;
}
one_more-Sound {s} g (retests e) = record {
  loop = g.loop;
  stands = tested-Stands s.has_loop s.runner (at-Stands s (waiting woken) g e);
}
one_more-Sound {s} g (publishes e) = record {
  loop = refl;
  stands = publish-Stands s.has_loop s.runner s.owner (λ u. cc) g.stands;
}
one_more-Sound {s} g (begins e h) = record {
  loop = g.loop ∙ ap is_published e;
  stands = runner-Stands s.has_loop s.runner looping s.owner (λ u. cc) (λ u. cc) g.stands;
}
one_more-Sound {s} g (turns e q) = record { loop = g.loop; stands = g.stands }
one_more-Sound {s} g (ends e q) = record {
  loop = g.loop ∙ ap is_published e;
  stands = runner-Stands s.has_loop s.runner ended s.owner (λ u. cc) (λ u. cc) g.stands;
}
one_more-Sound {s} {t} g (destroys e h) =
    let (l, r, o) = destroy-inv s h in
    record {
      loop = l ∙ g.loop ∙ ap is_published (sym r);
      stands =
          subst (Stands t.has_loop t.runner) (sym o) (λ u. (at-Stands s ready g e).0 (sym r ∙ u));
    }
one_more-Sound {s} g (joins e f) = record { loop = g.loop; stands = at-Stands s joining g e }

steps_keep-Sound : {s t : EventLoopThread} → Sound s → Steps s t → Sound t
steps_keep-Sound g done = g
steps_keep-Sound g (next step steps) = steps_keep-Sound (one_more-Sound g step) steps

-- `startLoop()` can return from here.
abbrev pub CanReturn : EventLoopThread → Type 0
CanReturn s = (t : EventLoopThread) × Steps s t × (t.owner ≡ ready)

step-CanReturn : {s t : EventLoopThread} → Step s t → CanReturn t → CanReturn s
step-CanReturn step (u, steps, e) = (u, next step steps, e)

-- The loop is there.
published-CanReturn :
    (s : EventLoopThread) (w : Waiter)
    → Sound s
    → s.owner ≡ waiting w
    → s.has_loop ≡ true
    → CanReturn s
published-CanReturn s outside g e h = (_, next (enters e) done, if-true _ _ h)
published-CanReturn s asleep g e h =
    absurd (true_false (sym h ∙ (at-Stands s (waiting asleep) g e).1))
  where
    true_false : true ≡ false → ⊥
    true_false k = cc
published-CanReturn s woken g e h = (_, next (retests e) done, if-true _ _ h)
published-CanReturn s returned g e h = absurd (at-Stands s (waiting returned) g e)

-- The new thread is somewhere in `threadFunc()`.
born : (s : EventLoopThread) (w : Waiter) → Sound s → s.owner ≡ waiting w → s.runner ≢ unborn
born s outside g e = at-Stands s (waiting outside) g e
born s asleep g e = (at-Stands s (waiting asleep) g e).0
born s woken g e = at-Stands s (waiting woken) g e
born s returned g e = absurd (at-Stands s (waiting returned) g e)

waiting-CanReturn :
    (s : EventLoopThread) (w : Waiter) (r : Runner)
    → Sound s
    → s.owner ≡ waiting w
    → s.runner ≡ r
    → CanReturn s
waiting-CanReturn s w unborn g e n = absurd (born s w g e n)
waiting-CanReturn s w constructing g e n = step-CanReturn (publishes n) (
    published-CanReturn (publish s) (notified true w) (one_more-Sound g (publishes n)) (ap told e)
      refl)
waiting-CanReturn s w published g e n = published-CanReturn s w g e (g.loop ∙ ap is_published n)
waiting-CanReturn s w looping g e n = published-CanReturn s w g e (g.loop ∙ ap is_published n)
waiting-CanReturn s w ended g e n = published-CanReturn s w g e (g.loop ∙ ap is_published n)

-- While `startLoop()` waits it can return, and it sleeps only while `loop_` is null; once it has returned,
-- `loop_` is not null.
abbrev pub Starts : EventLoopThread → Owner → Type 0
Starts s before = Unit
Starts s (waiting outside) = CanReturn s
Starts s (waiting asleep) = (s.has_loop ≡ false) × CanReturn s
Starts s (waiting woken) = CanReturn s
Starts s (waiting returned) = ⊥
Starts s ready = s.has_loop ≡ true
Starts s joining = Unit
Starts s joined = Unit

at-Starts : (s : EventLoopThread) (o : Owner) → Sound s → s.owner ≡ o → Starts s o
at-Starts s before g e = tt
at-Starts s (waiting outside) g e = waiting-CanReturn s outside s.runner g e refl
at-Starts s (waiting asleep) g e =
    ((at-Stands s (waiting asleep) g e).1, waiting-CanReturn s asleep s.runner g e refl)
at-Starts s (waiting woken) g e = waiting-CanReturn s woken s.runner g e refl
at-Starts s (waiting returned) g e = at-Stands s (waiting returned) g e
at-Starts s ready g e = (at-Stands s ready g e).1
at-Starts s joining g e = tt
at-Starts s joined g e = tt

-- However the owner of an EventLoopThread and the new thread take turns from the construction on, with
-- wake-ups that have no cause, where nothing but the destructor calls `quit()`: once startLoop has
-- returned and until the destructor, `loop_` is not null; a sleep in startLoop is one in which `loop_` is
-- still null, so that the notification is still to come; and while startLoop waits there are steps with
-- which it returns.
pub start_loop-Starts : (s : EventLoopThread) → Steps new_thread s → Starts s s.owner
start_loop-Starts s steps = at-Starts s s.owner (steps_keep-Sound new_thread-Sound steps) refl
