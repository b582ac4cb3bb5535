-- ===== src/TimerQueue/Insert.antt =====
-- `insert`, `addTimerInLoop` and `addTimer`.
use second_gear.Common.{
  ◌≡◌, ◌<◌, ◌≢◌, refl, sym, ap, subst, true, false, List, [], ◌∷◌, ok, Option, arith, Perm,
  Bool-cases, All-map, inl, inr, ◌⊎◌, if◌then◌else◌,
}
use second_gear.Common.Int.{pos, ◌<ℤ◌}
use second_gear.Common.OrderedSet
use second_gear.Time.{Double, before, new_timer}
use second_gear.TimerQueue.{
  Address, Entry, entry_ltb, TimerQueue, Request, Alarm, update, insert, earliest_changed,
  reset_timerfd, add_timer_in_loop, add_timer,
}
use second_gear.TimerQueue.Valid.{
  entry_ltb_trans, entry_ltb_total, same_head, IsTimer, IsEntry, IsValid, Absent, IsEntry-update,
  update_self, Armed,
}

-- The timers with `e` put in its place.
abbrev pub inserted : List Entry → Entry → List Entry
inserted l e = (OrderedSet.insert entry_ltb l e).0

-- An entry whose time is not before that of the first leaves the earliest time as it is.
Armed-later :
    (alarm : Option Alarm) (e : Entry) (l : List Entry)
    → earliest_changed e.0 l ≡ false
    → Armed alarm l
    → Armed alarm (inserted l e)
Armed-later alarm e [] h k = cc
Armed-later alarm e (f ∷ l) h (now, set) = elim (Bool-cases (entry_ltb e f)) [
  | inl first ↦
      subst (Armed alarm) (sym (ap (λ p. p.0) (OrderedSet.insert-first entry_ltb f l e first)))
        (now, rw (same_head e f first h) set)
  | inr later ↦
      let (zs, eq) = OrderedSet.insert-later entry_ltb f l e later in
      subst (Armed alarm) (sym eq) (now, set)
]

-- An entry whose time is before that of the first comes first.
inserted-first :
    (e : Entry) (l : List Entry)
    → earliest_changed e.0 l ≡ true
    → (OrderedSet.insert entry_ltb l e).0 ≡ e ∷ l
inserted-first e [] h = unfold OrderedSet.insert in refl
inserted-first e (f ∷ l) h = rw (OrderedSet.insert-first entry_ltb f l e (first e f h))
  where
    first : (e f : Entry) → before e.0 f.0 ≡ true → entry_ltb e f ≡ true
    first e f h = ground arith

module _ {d : Double} where
  -- A timer that no entry holds is inserted: no assertion fails, the invariant holds, and its entry
  -- is the only change of the timers.
  pub insert_lem :
      (q : TimerQueue d) (a : Address)
      → IsValid q
      → 0 < a
      → Absent a q.timers
      → IsTimer (q.store a)
      → let e : Entry = ((q.store a).expiration, a) in
        let q' = record q { timers = inserted q.timers e } in
        (insert q a ≡ ok (q', earliest_changed e.0 q.timers))
        × IsValid q'
        × Perm q'.timers (e ∷ q.timers)
  unfolding insert
  insert_lem q a v nn absent t = (
    rw new.0,
    record {
      sorted = OrderedSet.insert-Sorted entry_ltb entry_ltb_trans q.timers e v.sorted;
      entries =
          OrderedSet.All-insert entry_ltb (IsEntry q.store) q.timers e
            (record { keyed = refl; non_null = nn; timer = t }) v.entries;
    },
    new.1,
  )
    where
      e : Entry
      e = ((q.store a).expiration, a)

      new :
          ((OrderedSet.insert entry_ltb q.timers e).1 ≡ true)
          × Perm (inserted q.timers e) (e ∷ q.timers)
      new = OrderedSet.insert-new entry_ltb q.timers e (
          All-map (λ f. f.1 ≢ a) (λ f. (entry_ltb e f ≡ true) ⊎ (entry_ltb f e ≡ true)) q.timers
            (entry_ltb_total e) absent)

  -- What a call of `addTimer` leaves: the new entry beside those that were there.
  pub record Adds (q : TimerQueue d) (r : Request d) (q' : TimerQueue d) : Type 0 where
    pub valid : IsValid q'
    pub added : Perm q'.timers ((r.when, r.address) ∷ q.timers)
    pub stored : q'.store ≡ update q.store r.address (new_timer d r.callback r.when r.interval)
    pub armed : Armed q.alarm q.timers → Armed q'.alarm q'.timers
    pub absent : (a : Address) → r.address ≢ a → Absent a q.timers → Absent a q'.timers

  -- A request for a timer at an address that nothing else has, after the epoch.
  pub record IsRequest (l : List Entry) (r : Request d) : Type 0 where
    pub non_null : 0 < r.address
    pub absent : Absent r.address l
    pub future : pos 0 <ℤ r.when

  abbrev created : TimerQueue d → Request d → TimerQueue d
  created q r = record q {
    store = update q.store r.address (new_timer d r.callback r.when r.interval);
  }

  abbrev placed : TimerQueue d → Request d → TimerQueue d
  placed q r = record (created q r) { timers = inserted q.timers (r.when, r.address) }

  new_timer-IsTimer :
      (r : Request d) → pos 0 <ℤ r.when → IsTimer (new_timer d r.callback r.when r.interval)
  unfolding new_timer
  new_timer-IsTimer r h = record { future = h; periodic = refl }

  placed_lem :
      (q : TimerQueue d) (r : Request d)
      → IsValid q
      → IsRequest q.timers r
      → (insert (created q r) r.address ≡ ok (placed q r, earliest_changed r.when q.timers))
        × IsValid (placed q r)
        × Perm (placed q r).timers ((r.when, r.address) ∷ q.timers)
  unfolding new_timer
  placed_lem q r v h = rw timer at (
      insert_lem (created q r) r.address
        (record {
          sorted = v.sorted;
          entries = IsEntry-update q.store r.address _ q.timers h.absent v.entries;
        })
        h.non_null h.absent (rw timer (new_timer-IsTimer r h.future)))
    where
      timer : (created q r).store r.address ≡ new_timer d r.callback r.when r.interval
      timer = update_self q.store r.address (new_timer d r.callback r.when r.interval)

  add_timer-eq :
      (q : TimerQueue d) (r : Request d)
      → IsValid q
      → IsRequest q.timers r
      → add_timer q r
        ≡ ok (
            if earliest_changed r.when q.timers
            then reset_timerfd (placed q r) r.when r.now
            else placed q r)
  unfolding add_timer add_timer_in_loop new_timer
  add_timer-eq q r v h = rw (
    (placed_lem q r v h).0,
    update_self q.store r.address (new_timer d r.callback r.when r.interval),
  )

  pub add_timer_lem :
      (q : TimerQueue d) (r : Request d)
      → IsValid q
      → IsRequest q.timers r
      → (q' : TimerQueue d) × (add_timer q r ≡ ok q') × Adds q r q'
  unfolding reset_timerfd
  add_timer_lem q r v h = elim (Bool-cases (earliest_changed r.when q.timers)) [
    | inl changed ↦ (
      reset_timerfd (placed q r) r.when r.now,
      rw (add_timer-eq q r v h, changed),
      record {
        valid = record { sorted = p.1.sorted; entries = p.1.entries };
        added = p.2;
        stored = refl;
        absent = absent_after;
        armed = λ _. rw (inserted-first (r.when, r.address) q.timers changed) (r.now, refl);
      },
    )
    | inr later ↦ (
      placed q r,
      rw (add_timer-eq q r v h, later),
      record {
        valid = p.1;
        added = p.2;
        stored = refl;
        absent = absent_after;
        armed = Armed-later q.alarm (r.when, r.address) q.timers later;
      },
    )
  ]
    where
      p :
          (insert (created q r) r.address ≡ ok (placed q r, earliest_changed r.when q.timers))
          × IsValid (placed q r)
          × Perm (placed q r).timers ((r.when, r.address) ∷ q.timers)
      p = placed_lem q r v h

      absent_after :
          (a : Address) → r.address ≢ a → Absent a q.timers → Absent a (placed q r).timers
      absent_after a ne = OrderedSet.All-insert entry_ltb (λ e. e.1 ≢ a) q.timers _ ne

  -- `addTimer` in the thread of the loop, of a timer that is new and expires after the epoch: no
  -- assertion fails, the queue has exactly the one entry more, it stays valid, and the descriptor
  -- stays set for the earliest expiration.
  pub add_timer-Armed :
      (q : TimerQueue d) (r : Request d)
      → IsValid q
      → Armed q.alarm q.timers
      → IsRequest q.timers r
      → (q' : TimerQueue d) × (add_timer q r ≡ ok q')
        × IsValid q'
        × Armed q'.alarm q'.timers
        × Perm q'.timers ((r.when, r.address) ∷ q.timers)
  add_timer-Armed q r v a h =
      let (q', eq, adds) = add_timer_lem q r v h in (q', eq, adds.valid, adds.armed a, adds.added)
