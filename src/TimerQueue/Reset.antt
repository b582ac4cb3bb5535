-- ===== src/TimerQueue/Reset.antt =====
-- `reset`: the expired timers that repeat go back into the queue.
use mathlib.Core.List.Perm
use second_gear.Common.{
  ◌≡◌, refl, sym, ap, ◌∙◌, true, List, [], ◌∷◌, ◌++◌, ok, Option, some, All, Perm, All-map,
  Bool-cases, inl, inr, if◌then◌else◌, if-true, if-false, lt→ltb, subst, ◌>>=◌,
}
use second_gear.Common.Int.{pos, ◌<ℤ◌}
use second_gear.Time.{Double, Timer, Timestamp, valid, restart}
use second_gear.TimerQueue.{
  Address, Entry, TimerQueue, Alarm, arm, insert, earliest_changed, reset_timerfd, reset_one,
  reset_each, reset, next_expire,
}
use second_gear.TimerQueue.Valid.{IsValid, Absent, IsEntry-update, update_other, Armed}
use second_gear.TimerQueue.Restart.{
  still_apart, perm_swap_front, due, Held, due-eq, ResetOne, restarted, entry_of, requeued,
  entry_of-eq, insert-restarted,
}

module _ {d : Double} where
  stores_same :
      (q : TimerQueue d) (now : Timestamp) (e : Entry) (es : List Entry)
      → Absent e.1 es
      → All (λ f. (restarted q e now).store f.1 ≡ q.store f.1) es
  stores_same q now e es h =
      All-map _ _ es (λ f. update_other q.store e.1 (restart d (q.store e.1) now) f.1) h

  reset_one-repeat :
      (q : TimerQueue d) (now : Timestamp) (e : Entry) (es : List Entry)
      → pos 0 <ℤ now
      → Held q (e ∷ es)
      → (q.store e.1).repeat ≡ true
      → (q' : TimerQueue d) × (reset_one q e now ≡ ok q') × ResetOne q now e es q'
  unfolding reset_one due
  reset_one-repeat q now e es h v rep = (
    requeued q e now,
    if-true _ (ok q) rep ∙ ap (λ r. r >>= λ s. ok s.0) p.0,
    record {
      held = record {
        valid = p.1;
        distinct = v.distinct.1;
        apart = still_apart q.timers (entry_of q e now) es v.distinct.0 v.apart.1;
        entries = IsEntry-update q.store e.1 _ es v.distinct.0 v.entries.1;
      };
      same = stores_same q now e es v.distinct.0;
      added =
          subst (λ l. Perm (requeued q e now).timers (l ++ q.timers)) (sym (if-true _ [] rep))
            (rw (← entry_of-eq q e now rep) p.2);
    },
  )
    where
      p :
          (insert (restarted q e now) e.1
            ≡ ok (requeued q e now, earliest_changed (entry_of q e now).0 q.timers))
          × IsValid (requeued q e now)
          × Perm (requeued q e now).timers (entry_of q e now ∷ q.timers)
      p = insert-restarted q now e es h v rep

  reset_one_lem :
      (q : TimerQueue d) (now : Timestamp) (e : Entry) (es : List Entry)
      → pos 0 <ℤ now
      → Held q (e ∷ es)
      → (q' : TimerQueue d) × (reset_one q e now ≡ ok q') × ResetOne q now e es q'
  unfolding reset_one due
  reset_one_lem q now e es h v = elim (Bool-cases (q.store e.1).repeat) [
    | inl rep ↦ reset_one-repeat q now e es h v rep
    | inr once ↦ (
      q,
      rw once,
      record {
        held = record {
          valid = v.valid;
          distinct = v.distinct.1;
          apart = v.apart.1;
          entries = v.entries.1;
        };
        same = same es;
        added = rw once (Perm.refl q.timers);
      },
    )
  ]
    where
      same : (l : List Entry) → All (λ f. q.store f.1 ≡ q.store f.1) l
      same [] = tt
      same (f ∷ l) = (refl, same l)

  due-cons :
      (store : Address → Timer d) (now : Timestamp) (e : Entry) (es : List Entry)
      → due store now (e ∷ es) ≡ due store now (e ∷ []) ++ due store now es
  unfolding due
  due-cons store now e es = elim (Bool-cases (store e.1).repeat) [
    | inl rep ↦ if-true _ _ rep ∙ ap (λ l. l ++ due store now es) (sym (if-true _ [] rep))
    | inr once ↦ if-false _ _ once ∙ ap (λ l. l ++ due store now es) (sym (if-false _ [] once))
  ]

  reset_each_lem :
      (q : TimerQueue d) (now : Timestamp) (es : List Entry)
      → pos 0 <ℤ now
      → Held q es
      → (q' : TimerQueue d) × (reset_each q es now ≡ ok q')
        × IsValid q'
        × Perm q'.timers (due q.store now es ++ q.timers)
  unfolding reset_each
  reset_each_lem q now [] h v = (q, refl, v.valid, unfold due in Perm.refl q.timers)
  reset_each_lem q now (e ∷ es) h v =
      let (mid, eq, one) = reset_one_lem q now e es h v in
      let (q', eq', valid', perm) = reset_each_lem mid now es h one.held in
      (
        q',
        rw eq eq',
        valid',
        rw due-cons (
            Perm.trans perm (
              rw (due-eq q.store mid.store now es one.same) (
                Perm.trans (Perm.append_left (due q.store now es) one.added)
                  (perm_swap_front (due q.store now es) (due q.store now (e ∷ [])) q.timers)))),
      )

  abbrev set_next : TimerQueue d → Timestamp → TimerQueue d
  set_next q later = if valid (next_expire q) then reset_timerfd q (next_expire q) later else q

  -- The last lines of `reset`: the descriptor is set for the earliest expiration.
  set_next-Armed :
      (store : Address → Timer d) (l : List Entry) (alarm : Option Alarm) (later : Timestamp)
      → let q : TimerQueue d = record { store = store; timers = l; alarm = alarm } in
        IsValid q
        → IsValid (set_next q later)
          × Armed (set_next q later).alarm (set_next q later).timers
          × ((set_next q later).timers ≡ l)
  unfolding reset_timerfd
  set_next-Armed store [] alarm later v = (v, tt, refl)
  set_next-Armed store (e ∷ l) alarm later v = rw (lt→ltb _ _ v.entries.0.timer.future) (
    record { sorted = v.sorted; entries = v.entries },
    (later, ap (λ t. some (arm t later)) v.entries.0.keyed),
    refl,
  )

  pub reset_lem :
      (q : TimerQueue d) (now later : Timestamp) (es : List Entry)
      → pos 0 <ℤ now
      → Held q es
      → (q' : TimerQueue d) × (reset q es now later ≡ ok q')
        × IsValid q'
        × Armed q'.alarm q'.timers
        × Perm q'.timers (due q.store now es ++ q.timers)
  unfolding reset
  reset_lem q now later es h v =
      let (mid, eq, valid, perm) = reset_each_lem q now es h v in
      let (valid', armed, same) = set_next-Armed mid.store mid.timers mid.alarm later valid in
      (_, rw eq, valid', armed, rw same perm)
