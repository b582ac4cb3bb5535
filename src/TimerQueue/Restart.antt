-- ===== src/TimerQueue/Restart.antt =====
-- One repeating timer that `reset` puts back.
use mathlib.Core.List.{perm_append_comm}
use mathlib.Core.List.Perm
use second_gear.Common.{
  ◌≡◌, ◌≢◌, refl, sym, ap, ◌∙◌, true, List, [], ◌∷◌, ◌++◌, ok, arith, All, Perm, if◌then◌else◌,
  append_assoc,
}
use second_gear.Common.Int.{pos, ◌<ℤ◌, +ℤ_parts}
use second_gear.Common.OrderedSet
use second_gear.Time.{Double, Timer, Timestamp, add_time, restart}
use second_gear.TimerQueue.{Address, Entry, entry_ltb, TimerQueue, update, insert, earliest_changed}
use second_gear.TimerQueue.Valid.{
  IsTimer, IsEntry, IsValid, Absent, Distinct, IsEntry-update, update_self,
}
use second_gear.TimerQueue.Insert.{insert_lem, inserted}

pub still_apart :
    (l : List Entry) (e : Entry) (es : List Entry)
    → Absent e.1 es
    → All (λ f. Absent f.1 l) es
    → All (λ f. Absent f.1 (inserted l e)) es
still_apart l e [] h k = tt
still_apart l e (f ∷ es) h k = (
  OrderedSet.All-insert entry_ltb (λ g. g.1 ≢ f.1) l e (λ same. h.0 (sym same)) k.0,
  still_apart l e es h.1 k.1,
)

pub perm_swap_front : (xs ys zs : List Entry) → Perm (xs ++ (ys ++ zs)) ((ys ++ xs) ++ zs)
perm_swap_front xs ys zs =
    Perm.trans (rw (← append_assoc xs ys zs) (Perm.refl ((xs ++ ys) ++ zs)))
      (Perm.append_right zs (perm_append_comm xs ys))

module _ {d : Double} where
  -- The entries that `reset` puts back.
  unfoldable pub due : (Address → Timer d) → Timestamp → List Entry → List Entry
  due store now [] = []
  due store now (e ∷ es) =
      let rest = due store now es in
      if (store e.1).repeat then (add_time d now (store e.1).interval, e.1) ∷ rest else rest

  -- The queue beside timers that it does not hold, such as those that have expired.
  pub record Held (q : TimerQueue d) (es : List Entry) : Type 0 where
    pub valid : IsValid q
    pub distinct : Distinct es
    pub apart : All (λ e. Absent e.1 q.timers) es
    pub entries : All (IsEntry q.store) es

  add_time-future :
      (now : Timestamp) (t : Timer d)
      → pos 0 <ℤ now
      → IsTimer t
      → t.repeat ≡ true
      → pos 0 <ℤ add_time d now t.interval
  unfolding add_time
  add_time-future now t h v rep = omega (
    arith,
    +ℤ_parts now (d.to_micros t.interval),
    d.to_micros_nonneg t.interval (sym v.periodic ∙ rep),
  )

  restart-eq :
      (now : Timestamp) (t : Timer d)
      → t.repeat ≡ true
      → restart d t now ≡ record t { expiration = add_time d now t.interval }
  unfolding restart
  restart-eq now t rep = rw rep

  restart-IsTimer :
      (now : Timestamp) (t : Timer d)
      → pos 0 <ℤ now
      → IsTimer t
      → t.repeat ≡ true
      → IsTimer (restart d t now)
  restart-IsTimer now t h v rep =
      rw (restart-eq now t rep)
        (record { future = add_time-future now t h v rep; periodic = v.periodic })

  pub due-eq :
      (store other : Address → Timer d) (now : Timestamp) (es : List Entry)
      → All (λ e. other e.1 ≡ store e.1) es
      → due other now es ≡ due store now es
  unfolding due
  due-eq store other now [] h = refl
  due-eq store other now (e ∷ es) h = rw (h.0, due-eq store other now es h.1)

  -- What becomes of one expired timer, with the others still outside the queue.
  pub record ResetOne (q : TimerQueue d) (now : Timestamp) (e : Entry) (es : List Entry)
      (q' : TimerQueue d) : Type 0 where
    pub held : Held q' es
    pub same : All (λ f. q'.store f.1 ≡ q.store f.1) es
    pub added : Perm q'.timers (due q.store now (e ∷ []) ++ q.timers)

  abbrev pub restarted : TimerQueue d → Entry → Timestamp → TimerQueue d
  restarted q e now = record q { store = update q.store e.1 (restart d (q.store e.1) now) }

  restarted-timer :
      (q : TimerQueue d) (e : Entry) (now : Timestamp)
      → (restarted q e now).store e.1 ≡ restart d (q.store e.1) now
  restarted-timer q e now = update_self q.store e.1 (restart d (q.store e.1) now)

  restarted-IsValid :
      (q : TimerQueue d) (e : Entry) (now : Timestamp)
      → IsValid q
      → Absent e.1 q.timers
      → IsValid (restarted q e now)
  restarted-IsValid q e now v h = record {
    sorted = v.sorted;
    entries = IsEntry-update q.store e.1 _ q.timers h v.entries;
  }

  -- The place of the restarted timer.
  abbrev pub entry_of : TimerQueue d → Entry → Timestamp → Entry
  entry_of q e now = (((restarted q e now).store e.1).expiration, e.1)

  abbrev pub requeued : TimerQueue d → Entry → Timestamp → TimerQueue d
  requeued q e now = record (restarted q e now) { timers = inserted q.timers (entry_of q e now) }

  pub entry_of-eq :
      (q : TimerQueue d) (e : Entry) (now : Timestamp)
      → (q.store e.1).repeat ≡ true
      → entry_of q e now ≡ (add_time d now (q.store e.1).interval, e.1)
  entry_of-eq q e now rep =
      ap (λ (t : Timer d). (t.expiration, e.1))
        (restarted-timer q e now ∙ restart-eq now (q.store e.1) rep)

  pub insert-restarted :
      (q : TimerQueue d) (now : Timestamp) (e : Entry) (es : List Entry)
      → pos 0 <ℤ now
      → Held q (e ∷ es)
      → (q.store e.1).repeat ≡ true
      → (insert (restarted q e now) e.1
          ≡ ok (requeued q e now, earliest_changed (entry_of q e now).0 q.timers))
        × IsValid (requeued q e now)
        × Perm (requeued q e now).timers (entry_of q e now ∷ q.timers)
  insert-restarted q now e es h v rep =
      insert_lem (restarted q e now) e.1 (restarted-IsValid q e now v.valid v.apart.0)
        v.entries.0.non_null v.apart.0
        (rw (restarted-timer q e now) (restart-IsTimer now (q.store e.1) h v.entries.0.timer rep))
