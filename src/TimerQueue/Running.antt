-- ===== src/TimerQueue/Running.antt =====
-- The queue while the callbacks of expired timers run, which may ask for timers.
use mathlib.Core.List.Perm
use second_gear.Common.{
  ◌≡◌, refl, sym, ◌∙◌, List, [], ◌∷◌, ◌++◌, map, ok, All, Perm, All-map, subst,
}
use second_gear.Time.{Double, Timer}
use second_gear.TimerQueue.{Address, Entry, TimerQueue, Request, add_timer, add_timers}
use second_gear.TimerQueue.Valid.{IsEntry, Absent, IsEntry-update, update_other}
use second_gear.TimerQueue.Insert.{Adds, IsRequest, add_timer_lem}
use second_gear.TimerQueue.Restart.{Held, perm_swap_front}

module _ {d : Double} where
  abbrev pub entry_for : Request d → Entry
  entry_for r = (r.when, r.address)

  -- Requests for timers at addresses that differ from those of `l` and from one another.
  abbrev pub Requests : List Entry → List (Request d) → Type 0
  Requests l [] = Unit {0}
  Requests l (r ∷ rs) = IsRequest l r × Requests (entry_for r ∷ l) rs

  -- The entries known after the requests.
  abbrev pub seen : List Entry → List (Request d) → List Entry
  seen l [] = l
  seen l (r ∷ rs) = seen (entry_for r ∷ l) rs

  pub Requests-split :
      (l : List Entry) (rs ss : List (Request d))
      → Requests l (rs ++ ss)
      → Requests l rs × Requests (seen l rs) ss
  Requests-split l [] ss h = (tt, h)
  Requests-split l (r ∷ rs) ss h =
      let (a, b) = Requests-split (entry_for r ∷ l) rs ss h.1 in ((h.0, a), b)

  -- The queue while the callbacks of `es` run; `l` has every entry that is in use.
  pub record Running (l es : List Entry) (q : TimerQueue d) : Type 0 where
    pub held : Held q es
    pub covers : (a : Address) → Absent a l → Absent a q.timers × Absent a es

  -- From one state to a later one, which has the entries `new` more.
  pub record Grows (es : List Entry) (q : TimerQueue d) (new : List Entry) (q' : TimerQueue d)
      : Type 0 where
    pub same : All (λ e. q'.store e.1 ≡ q.store e.1) es
    pub added : Perm q'.timers (new ++ q.timers)

  apart_after :
      (q q' : TimerQueue d) (r : Request d) (es : List Entry)
      → Adds q r q'
      → Absent r.address es
      → All (λ e. Absent e.1 q.timers) es
      → All (λ e. Absent e.1 q'.timers) es
  apart_after q q' r [] h k s = tt
  apart_after q q' r (e ∷ es) h k s =
      (h.absent e.1 (λ p. k.0 (sym p)) s.0, apart_after q q' r es h k.1 s.1)

  add_timer-Running :
      (l es : List Entry) (q : TimerQueue d) (r : Request d)
      → Running l es q
      → IsRequest l r
      → (q' : TimerQueue d) × (add_timer q r ≡ ok q')
        × Running (entry_for r ∷ l) es q'
        × Grows es q (entry_for r ∷ []) q'
  add_timer-Running l es q r run h =
      let (here, there) = run.covers r.address h.absent in
      let (q', eq, adds) =
        add_timer_lem q r run.held.valid
          (record { non_null = h.non_null; absent = here; future = h.future }) in
      (
        q',
        eq,
        record {
          held = record {
            valid = adds.valid;
            distinct = run.held.distinct;
            apart = apart_after q q' r es adds there run.held.apart;
            entries =
                subst (λ s. All (IsEntry s) es) (sym adds.stored)
                  (IsEntry-update q.store r.address _ es there run.held.entries);
          };
          covers = λ a k. (adds.absent a k.0 (run.covers a k.1).0, (run.covers a k.1).1);
        },
        record {
          same =
              subst (λ s. All (λ e. s e.1 ≡ q.store e.1) es) (sym adds.stored)
                (All-map _ _ es (λ e. update_other q.store r.address _ e.1) there);
          added = adds.added;
        },
      )

  same_refl : (s : Address → Timer d) (es : List Entry) → All (λ e. s e.1 ≡ s e.1) es
  same_refl s [] = tt
  same_refl s (e ∷ es) = (refl, same_refl s es)

  same_trans :
      (s t u : Address → Timer d) (es : List Entry)
      → All (λ e. t e.1 ≡ s e.1) es
      → All (λ e. u e.1 ≡ t e.1) es
      → All (λ e. u e.1 ≡ s e.1) es
  same_trans s t u [] h k = tt
  same_trans s t u (e ∷ es) h k = (k.0 ∙ h.0, same_trans s t u es h.1 k.1)

  pub Grows-refl : (es : List Entry) (q : TimerQueue d) → Grows es q [] q
  Grows-refl es q = record { same = same_refl q.store es; added = Perm.refl q.timers }

  pub Grows-trans :
      (es new newer : List Entry) (q mid q' : TimerQueue d)
      → Grows es q new mid
      → Grows es mid newer q'
      → Grows es q (new ++ newer) q'
  Grows-trans es new newer q mid q' g h = record {
    same = same_trans q.store mid.store q'.store es g.same h.same;
    added =
        Perm.trans h.added
          (Perm.trans (Perm.append_left newer g.added) (perm_swap_front newer new q.timers));
  }

  pub add_timers-Running :
      (l es : List Entry) (q : TimerQueue d) (rs : List (Request d))
      → Running l es q
      → Requests l rs
      → (q' : TimerQueue d) × (add_timers q rs ≡ ok q')
        × Running (seen l rs) es q'
        × Grows es q (map entry_for rs) q'
  unfolding add_timers
  add_timers-Running l es q [] run h = (q, refl, run, Grows-refl es q)
  add_timers-Running l es q (r ∷ rs) run h =
      let (mid, eq, run', g) = add_timer-Running l es q r run h.0 in
      let (q', eq', run_end, g') = add_timers-Running (entry_for r ∷ l) es mid rs run' h.1 in
      (q', rw eq eq', run_end, Grows-trans es (entry_for r ∷ []) (map entry_for rs) q mid q' g g')
