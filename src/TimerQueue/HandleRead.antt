-- ===== src/TimerQueue/HandleRead.antt =====
-- `handleRead` as a whole: which callbacks run, and what the queue holds afterwards.
use mathlib.Core.List.{map-append}
use mathlib.Core.List.Perm
use second_gear.Common.{
  ℕ, suc, ◌≡◌, ◌≢◌, refl, ap, List, [], ◌∷◌, ◌++◌, map, ok, arith, All, Perm, All-map, subst,
  All-split, true, false, lt→ltb,
}
use second_gear.Common.Int.{pos, ◌<ℤ◌}
use second_gear.Common.OrderedSet
use second_gear.Time.{Double, Timer, Timestamp, Callback}
use second_gear.TimerQueue.{
  Address, Entry, entry_ltb, TimerQueue, Request, get_expired, run_expired, handle_read,
  read_timerfd, starts_after,
}
use second_gear.TimerQueue.Valid.{
  IsEntry, IsValid, Absent, Distinct, Distinct-split, entries-Distinct, Armed,
}
use second_gear.TimerQueue.Restart.{due, Held, due-eq}
use second_gear.TimerQueue.Reset.{reset_lem}
use second_gear.TimerQueue.Running.{
  entry_for, Requests, seen, Requests-split, Running, Grows, Grows-refl, Grows-trans,
  add_timers-Running,
}

below : (now : Timestamp) (e : Entry) → e.0 <ℤ now → entry_ltb e (now, 0) ≡ true
below now e h = ground arith

above : (now : Timestamp) (e : Entry) → now <ℤ e.0 → entry_ltb e (now, 0) ≡ false
above now e h = ground arith

starts_after-eq :
    (now : Timestamp) (l : List Entry) → All (λ e. now <ℤ e.0) l → starts_after now l ≡ true
starts_after-eq now [] h = refl
starts_after-eq now (e ∷ l) h = lt→ltb _ _ h.0

module _ {d : Double} where
  -- All that the callbacks of `es` ask for, from the `i`-th on.
  unfoldable pub requested : (ℕ → List (Request d)) → ℕ → List Entry → List (Request d)
  requested effects i [] = []
  requested effects i (e ∷ es) = effects i ++ requested effects (suc i) es

  abbrev pub callbacks : (Address → Timer d) → List Entry → List Callback
  callbacks store = map (λ e. (store e.1).callback)

  callbacks-eq :
      (s t : Address → Timer d) (es : List Entry)
      → All (λ e. t e.1 ≡ s e.1) es
      → callbacks t es ≡ callbacks s es
  callbacks-eq s t [] h = refl
  callbacks-eq s t (e ∷ es) h = rw (h.0, callbacks-eq s t es h.1)

  run_expired_lem :
      (effects : ℕ → List (Request d)) (i : ℕ) (l es todo : List Entry) (q : TimerQueue d)
      → ((s t : Address → Timer d) → All (λ e. t e.1 ≡ s e.1) es → All (λ e. t e.1 ≡ s e.1) todo)
      → Running l es q
      → Requests l (requested effects i todo)
      → (q' : TimerQueue d) × (run_expired effects i q todo ≡ ok (callbacks q.store todo, q'))
        × Held q' es
        × Grows es q (map entry_for (requested effects i todo)) q'
  unfolding run_expired requested
  run_expired_lem effects i l es [] q sub run h = (q, refl, run.held, Grows-refl es q)
  run_expired_lem effects i l es (e ∷ todo) q sub run h =
      let (now, afterwards) = Requests-split l (effects i) (requested effects (suc i) todo) h in
      let (mid, eq, run', g) = add_timers-Running l es q (effects i) run now in
      let (q', eq', held, g') =
        run_expired_lem effects (suc i) (seen l (effects i)) es todo mid (λ s t k. (sub s t k).1)
          run' afterwards in
      (
        q',
        rw (eq, eq')
            (ap (λ c. ok ((q.store e.1).callback ∷ c, q'))
              (callbacks-eq q.store mid.store todo (sub q.store mid.store g.same).1)),
        held,
        rw map-append (Grows-trans es _ _ q mid q' g g'),
      )

  get_expired-eq :
      (q : TimerQueue d) (now : Timestamp) (expired rest : List Entry)
      → q.timers ≡ expired ++ rest
      → All (λ e. e.0 <ℤ now) expired
      → All (λ e. now <ℤ e.0) rest
      → get_expired q now ≡ ok (expired, record q { timers = rest })
  unfolding get_expired
  get_expired-eq q now expired rest split low high = rw (
    split,
    OrderedSet.lower_bound-split entry_ltb expired rest (now, 0)
        (All-map _ _ expired (below now) low) (All-map _ _ rest (above now) high),
    starts_after-eq now rest high,
  )

  -- The queue without the expired timers.
  remaining-Running :
      (q : TimerQueue d) (expired rest : List Entry)
      → IsValid q
      → q.timers ≡ expired ++ rest
      → Running (expired ++ rest) expired (record (read_timerfd q) { timers = rest })
  unfolding read_timerfd
  remaining-Running q expired rest v split = record {
    held = record {
      valid = record {
        sorted = (OrderedSet.Sorted-split entry_ltb expired rest sorted).1;
        entries = parts.1;
      };
      distinct = apart.0;
      apart = apart.2;
      entries = parts.0;
    };
    covers = λ a k. let (x, y) = All-split (λ e. e.1 ≢ a) expired rest k in (y, x);
  }
    where
      sorted : OrderedSet.Sorted entry_ltb (expired ++ rest)
      sorted = subst (OrderedSet.Sorted entry_ltb) split v.sorted

      entries : All (IsEntry q.store) (expired ++ rest)
      entries = subst (All (IsEntry q.store)) split v.entries

      parts : All (IsEntry q.store) expired × All (IsEntry q.store) rest
      parts = All-split (IsEntry q.store) expired rest entries

      apart : Distinct expired × Distinct rest × All (λ e. Absent e.1 rest) expired
      apart =
          Distinct-split expired rest (entries-Distinct q.store (expired ++ rest) sorted entries)

  -- `handleRead` of a valid queue with no timer for exactly `now`, when the callbacks ask for timers
  -- at new addresses only, and `now` and those timers lie after the epoch: no assertion fails. The
  -- callbacks of the timers before `now` run once each, in the order of the queue. Afterwards the
  -- queue holds the timers after `now`, those that the callbacks asked for, and the expired ones that
  -- repeat, one interval after `now`, and nothing else. It is valid, and the descriptor is set for the
  -- earliest expiration.
  pub handle_read_lem :
      (q : TimerQueue d) (now later : Timestamp) (effects : ℕ → List (Request d))
      (expired rest : List Entry)
      → IsValid q
      → pos 0 <ℤ now
      → q.timers ≡ expired ++ rest
      → All (λ e. e.0 <ℤ now) expired
      → All (λ e. now <ℤ e.0) rest
      → Requests (expired ++ rest) (requested effects 0 expired)
      → (q' : TimerQueue d) × (handle_read q now later effects ≡ ok (callbacks q.store expired, q'))
        × IsValid q'
        × Armed q'.alarm q'.timers
        × Perm q'.timers
            (due q.store now expired ++ (map entry_for (requested effects 0 expired) ++ rest))
  unfolding handle_read read_timerfd
  handle_read_lem q now later effects expired rest v positive split low high fresh =
      let (mid, ran, held, g) =
        run_expired_lem effects 0 (expired ++ rest) expired expired
          (record (read_timerfd q) { timers = rest }) (λ s t k. k)
          (remaining-Running q expired rest v split) fresh in
      let (q', eq, valid, armed, perm) = reset_lem mid now later expired positive held in
      (
        q',
        rw (get_expired-eq (read_timerfd q) now expired rest split low high, ran, eq),
        valid,
        armed,
        Perm.trans perm (
            rw (due-eq q.store mid.store now expired g.same)
              (Perm.append_left (due q.store now expired) g.added)),
      )
