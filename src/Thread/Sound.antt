-- ===== src/Thread/Sound.antt =====
-- What holds in every run of the owner and the new thread: where each stands, what the latch counts,
-- and that the number is there before the count goes down.
use second_gear.Common.{
  ℕ, ◌<◌, ◌≡◌, ◌≢◌, refl, sym, ap, ◌∙◌, Bool, true, false, not, List, ok, arith, lt→ltb, subst,
}
use second_gear.Common.Int.{pos, -ℤ_parts}
use second_gear.Latch.{
  CountDownLatch, outside, asleep, woken, returned, tested, count_down, must_wait,
}
use second_gear.Latch.Waiting.{Fits, tested-Fits, counted-Fits, open_stays}
use second_gear.Thread.{
  Thread, current_tid, Owner, before, waiting, started, joining, joined, aborted, Runner, unborn,
  begun, numbered, running, finished, System, first, told, counted, begin_start, end_start,
  fail_start, begin_join, Step, creates, fails, enters, wakes, retests, returns, aborts, joins,
  ends, numbers, counts, finishes, Steps, done, next,
}

abbrev is_numbered : Runner → Bool
is_numbered unborn = false
is_numbered begun = false
is_numbered numbered = true
is_numbered running = true
is_numbered finished = true

abbrev pub has_counted : Runner → Bool
has_counted unborn = false
has_counted begun = false
has_counted numbered = false
has_counted running = true
has_counted finished = true

-- Where the owner may stand.
abbrev pub Stands : CountDownLatch → Runner → Owner → Type 0
Stands l r before = r ≡ unborn
Stands l r (waiting w) = (r ≢ unborn) × Fits l w
Stands l r started = (r ≢ unborn) × (must_wait l ≡ false)
Stands l r joining = (r ≢ unborn) × (must_wait l ≡ false)
Stands l r joined = (r ≢ unborn) × (must_wait l ≡ false)
Stands l r aborted = ⊥

pub record Sound (gettid : ℕ) (s : System) : Type 0 where
  pub latch : must_wait s.thread.latch ≡ not (has_counted s.runner)
  pub one : has_counted s.runner ≡ false → s.thread.latch.count ≡ pos 1
  pub tid : is_numbered s.runner ≡ true → s.thread.tid ≡ gettid
  pub stands : Stands s.thread.latch s.runner s.owner

pub first-Sound : (gettid : ℕ) (name : List ℕ) → Sound gettid (first name)
first-Sound gettid name = record { latch = refl; one = λ h. refl; tid = λ h. cc; stands = refl }

begin_start-eq : (t : Thread) {u : Thread} → begin_start t ≡ ok u → u ≡ record t { started = true }
unfolding begin_start
begin_start-eq t h = ground arith

begin_join-eq : (t : Thread) {u : Thread} → begin_join t ≡ ok u → u ≡ record t { joined = true }
unfolding begin_join
begin_join-eq t h = ground arith

end_start-eq : (t : Thread) {u : Thread} → end_start t ≡ ok u → u ≡ t
unfolding end_start
end_start-eq t h = ground arith

end_start-ok : (t : Thread) → 0 < t.tid → end_start t ≡ ok t
unfolding end_start
end_start-ok t h = rw (lt→ltb 0 t.tid h)

-- The owner's place may be any that its latch allows.
told-Stands :
    (l : CountDownLatch) (o : Owner)
    → Stands l numbered o
    → Stands (count_down l).0 running (told (count_down l).1 o)
told-Stands l before h = cc
told-Stands l (waiting w) (b, h) = (λ e. cc, counted-Fits l w h)
told-Stands l started (b, h) = (λ e. cc, open_stays l h)
told-Stands l joining (b, h) = (λ e. cc, open_stays l h)
told-Stands l joined (b, h) = (λ e. cc, open_stays l h)
told-Stands l aborted h = h

counts_to_zero : (l : CountDownLatch) → l.count ≡ pos 1 → must_wait (count_down l).0 ≡ false
counts_to_zero l h = ground (arith, -ℤ_parts l.count (pos 1))

pub counted_numbered : (r : Runner) → not (has_counted r) ≡ false → is_numbered r ≡ true
counted_numbered unborn h = cc
counted_numbered begun h = cc
counted_numbered numbered h = refl
counted_numbered running h = refl
counted_numbered finished h = refl

module _ (gettid : ℕ) where
  -- The owner moves, the runner does not, and the thread keeps its latch and its number.
  owner-Sound :
      (s : System) (t : Thread) (o : Owner)
      → Sound gettid s
      → t.latch ≡ s.thread.latch
      → t.tid ≡ s.thread.tid
      → Stands s.thread.latch s.runner o
      → Sound gettid (record s { thread = t; owner = o })
  owner-Sound s t o g same_latch same_tid h = record {
    latch = ap must_wait same_latch ∙ g.latch;
    one = λ c. ap (λ (l : CountDownLatch). l.count) same_latch ∙ g.one c;
    tid = λ n. same_tid ∙ g.tid n;
    stands = subst (λ l. Stands l s.runner o) (sym same_latch) h;
  }

  creates-Sound :
      (s : System)
      → Sound gettid s
      → s.owner ≡ before
      → Sound gettid (record {
        thread = record s.thread { started = true };
        owner = waiting outside;
        runner = begun;
      })
  creates-Sound s g e =
      let fresh : s.runner ≡ unborn = subst (Stands s.thread.latch s.runner) e g.stands in
      record {
        latch = g.latch ∙ ap (λ r. not (has_counted r)) fresh;
        one = λ c. g.one (ap has_counted fresh);
        tid = λ n. cc;
        stands = (λ h. cc, tt);
      }

  pub numbers-Sound :
      (s : System)
      → Sound gettid s
      → s.runner ≡ begun
      → Sound gettid
          (record s { thread = record s.thread { tid = current_tid 0 gettid }; runner = numbered })
  numbers-Sound s g e = record {
    latch = g.latch ∙ ap (λ r. not (has_counted r)) e;
    one = λ c. g.one (ap has_counted e);
    tid = λ n. refl;
    stands = born_Stands s.thread.latch s.runner s.owner (λ u. cc) g.stands;
  }
    where
      born_Stands :
          (l : CountDownLatch) (r : Runner) (o : Owner)
          → r ≢ unborn
          → Stands l r o
          → Stands l numbered o
      born_Stands l r before b h = absurd (b h)
      born_Stands l r (waiting w) b h = (λ u. cc, h.1)
      born_Stands l r started b h = (λ u. cc, h.1)
      born_Stands l r joining b h = (λ u. cc, h.1)
      born_Stands l r joined b h = (λ u. cc, h.1)
      born_Stands l r aborted b h = h

  pub counts-Sound : (s : System) → Sound gettid s → s.runner ≡ numbered → Sound gettid (counted s)
  counts-Sound s g e = record {
    latch = counts_to_zero s.thread.latch (g.one (ap has_counted e));
    one = λ c. cc;
    tid = λ n. g.tid (ap is_numbered e);
    stands =
        told-Stands s.thread.latch s.owner
          (subst (λ r. Stands s.thread.latch r s.owner) e g.stands);
  }

  finishes-Sound :
      (s : System)
      → Sound gettid s
      → s.runner ≡ running
      → Sound gettid (record s { runner = finished })
  finishes-Sound s g e = record {
    latch = g.latch ∙ ap (λ r. not (has_counted r)) e;
    one = λ c. cc;
    tid = λ n. g.tid (ap is_numbered e);
    stands = later_Stands s.thread.latch s.runner s.owner e g.stands;
  }
    where
      later_Stands :
          (l : CountDownLatch) (r : Runner) (o : Owner)
          → r ≡ running
          → Stands l r o
          → Stands l finished o
      later_Stands l r before b h = cc
      later_Stands l r (waiting w) b h = (λ u. cc, h.1)
      later_Stands l r started b h = (λ u. cc, h.1)
      later_Stands l r joining b h = (λ u. cc, h.1)
      later_Stands l r joined b h = (λ u. cc, h.1)
      later_Stands l r aborted b h = h

  -- Where the owner stands, seen from the equation for its place.
  pub at-Stands :
      (s : System) (o : Owner) → Sound gettid s → s.owner ≡ o → Stands s.thread.latch s.runner o
  at-Stands s o g e = subst (Stands s.thread.latch s.runner) e g.stands

  -- After the wait the number is there, and it is positive.
  pub passed :
      (s : System)
      → 0 < gettid
      → Sound gettid s
      → s.owner ≡ waiting returned
      → end_start s.thread ≡ ok s.thread
  passed s positive g e =
      let (born, through) = at-Stands s (waiting returned) g e in
      end_start-ok s.thread
        (omega (arith, g.tid (counted_numbered s.runner (sym g.latch ∙ through))))

  pub one_more-Sound :
      {s t : System} → 0 < gettid → Sound gettid s → Step gettid s t → Sound gettid t
  one_more-Sound {s} positive g (creates {t = t} e h) =
      subst (λ u. Sound gettid (record { thread = u; owner = waiting outside; runner = begun }))
        (sym (begin_start-eq s.thread h)) (creates-Sound s g e)
  one_more-Sound {s} positive g (fails {t = t} e h) =
      let same = begin_start-eq s.thread h in
      owner-Sound s (fail_start t) s.owner g (ap (λ (u : Thread). u.latch) same)
        (ap (λ (u : Thread). u.tid) same) g.stands
  one_more-Sound {s} positive g (enters e) =
      owner-Sound s s.thread (waiting (tested s.thread.latch)) g refl refl
        ((at-Stands s (waiting outside) g e).0, tested-Fits s.thread.latch)
  one_more-Sound {s} positive g (wakes e) =
      owner-Sound s s.thread (waiting woken) g refl refl ((at-Stands s (waiting asleep) g e).0, tt)
  one_more-Sound {s} positive g (retests e) =
      owner-Sound s s.thread (waiting (tested s.thread.latch)) g refl refl
        ((at-Stands s (waiting woken) g e).0, tested-Fits s.thread.latch)
  one_more-Sound {s} positive g (returns {t = t} e h) =
      let same = end_start-eq s.thread h in
      owner-Sound s t started g (ap (λ (u : Thread). u.latch) same)
        (ap (λ (u : Thread). u.tid) same) (at-Stands s (waiting returned) g e)
  one_more-Sound {s} positive g (aborts e h) = let p = passed s positive g e in cc
  one_more-Sound {s} positive g (joins {t = t} e h) =
      let same = begin_join-eq s.thread h in
      owner-Sound s t joining g (ap (λ (u : Thread). u.latch) same)
        (ap (λ (u : Thread). u.tid) same) (at-Stands s started g e)
  one_more-Sound {s} positive g (ends e f) =
      owner-Sound s s.thread joined g refl refl (at-Stands s joining g e)
  one_more-Sound {s} positive g (numbers e) = numbers-Sound s g e
  one_more-Sound {s} positive g (counts e) = counts-Sound s g e
  one_more-Sound {s} positive g (finishes e) = finishes-Sound s g e

  pub steps_keep-Sound :
      {s t : System} → 0 < gettid → Sound gettid s → Steps gettid s t → Sound gettid t
  steps_keep-Sound positive g done = g
  steps_keep-Sound positive g (next step steps) =
      steps_keep-Sound positive (one_more-Sound positive g step) steps
