-- ===== src/TimerQueue.antt =====
-- TimerQueue.h and TimerQueue.cpp, in the thread of the loop. A `Timer*` is an address, and `store`
-- says which timer lies there; `new` returns an address that the caller gives. The calls of
-- `Timestamp::now()` return what the caller gives too, one argument or field for each call.
pub mod Delay
pub mod Valid
pub mod Insert
pub mod Expire
pub mod Restart
pub mod Reset
pub mod Running
pub mod HandleRead
mod Tests
use second_gear.Common.{
  ℕ, zero, suc, ◌-◌, ◌*◌, ◌/◌, ◌%◌, Bool, true, false, ◌&&◌, ◌||◌, not, List, [], ◌∷◌, Option, none,
  some, Result, ok, err, ◌>>=◌, ◌>>◌, assert, ltb, ◌==◌, if◌then◌else◌,
}
use second_gear.Common.Int.{pos, pos_part, ◌-ℤ◌, ltb_ℤ}
use second_gear.Common.OrderedSet
use second_gear.Time.{
  Timestamp, micros_per_second, invalid, valid, before, add_time, Callback, Double, Timer,
  new_timer, restart,
}

abbrev pub Address : Type 0
Address = ℕ

-- `std::pair<Timestamp, TimerPtr>`, and its `operator<`
abbrev pub Entry : Type 0
Entry = Timestamp × Address

abbrev pub entry_ltb : Entry → Entry → Bool
entry_ltb a b = before a.0 b.0 || (not (before b.0 a.0) && ltb a.1 b.1)

-- `struct timespec`
pub record Timespec : Type 0 where
  pub tv_sec : ℕ
  pub tv_nsec : ℕ

-- `microseconds` of `howMuchTimeFromNow`, at least 100
abbrev pub delay_micros : Timestamp → Timestamp → ℕ
delay_micros when now =
    let microseconds = when -ℤ now in
    if ltb_ℤ microseconds (pos 100) then 100 else pos_part microseconds

pub how_much_time_from_now : Timestamp → Timestamp → Timespec
how_much_time_from_now when now = record {
  tv_sec = delay_micros when now / micros_per_second;
  tv_nsec = delay_micros when now % micros_per_second * 1000;
}

-- What `timerfd_settime` was last given, and when. It has no period.
pub record Alarm : Type 0 where
  pub set_at : Timestamp
  pub value : Timespec

abbrev pub arm : Timestamp → Timestamp → Alarm
arm expiration now = record { set_at = now; value = how_much_time_from_now expiration now }

pub record TimerQueue (d : Double) : Type 0 where
  pub store : Address → Timer d
  pub timers : List Entry
  pub alarm : Option Alarm

-- A call of `addTimer` in the thread of the loop: its arguments, the address of the new timer, and
-- the time when the timer descriptor is set, if it is.
pub record Request (d : Double) : Type 0 where
  pub callback : Callback
  pub when : Timestamp
  pub interval : d.Seconds
  pub address : Address
  pub now : Timestamp

-- `insert` returns whether the earliest expiration has changed.
abbrev pub earliest_changed : Timestamp → List Entry → Bool
earliest_changed when [] = true
earliest_changed when (e ∷ _) = before when e.0

-- `it == timers_.end() || now < it->first`
abbrev pub starts_after : Timestamp → List Entry → Bool
starts_after now [] = true
starts_after now (e ∷ _) = before now e.0

module _ {d : Double} where
  abbrev pub update : (Address → Timer d) → Address → Timer d → Address → Timer d
  update store a t b = if a == b then t else store b

  pub reset_timerfd : TimerQueue d → Timestamp → Timestamp → TimerQueue d
  reset_timerfd q expiration now = record q { alarm = some (arm expiration now) }

  pub insert : TimerQueue d → Address → Result (TimerQueue d × Bool)
  insert q timer =
      let when = (q.store timer).expiration in
      let entry : Entry = (when, timer) in
      assert (OrderedSet.insert entry_ltb q.timers entry).1
      >> ok (
        record q { timers = (OrderedSet.insert entry_ltb q.timers entry).0 },
        earliest_changed when q.timers,
      )

  pub add_timer_in_loop : TimerQueue d → Address → Timestamp → Result (TimerQueue d)
  add_timer_in_loop q timer now = do
    (q', changed) ← insert q timer
    ok (if changed then reset_timerfd q' (q'.store timer).expiration now else q')

  pub add_timer : TimerQueue d → Request d → Result (TimerQueue d)
  add_timer q r =
      add_timer_in_loop
        (record q { store = update q.store r.address (new_timer d r.callback r.when r.interval) })
        r.address r.now

  pub add_timers : TimerQueue d → List (Request d) → Result (TimerQueue d)
  add_timers q [] = ok q
  add_timers q (r ∷ rs) = do q' ← add_timer q r; add_timers q' rs

  -- The sentry holds a null pointer, which is address 0.
  pub get_expired : TimerQueue d → Timestamp → Result (List Entry × TimerQueue d)
  get_expired q now =
      let parts = OrderedSet.lower_bound entry_ltb q.timers (now, 0) in
      assert (starts_after now parts.1) >> ok (parts.0, record q { timers = parts.1 })

  -- The callbacks of the expired timers, in order. What the `i`-th one asks of the queue is an
  -- argument, `effects i`.
  pub run_expired :
      (ℕ → List (Request d)) → ℕ → TimerQueue d → List Entry → Result (List Callback × TimerQueue d)
  run_expired effects i q [] = ok ([], q)
  run_expired effects i q (e ∷ es) = do
    q' ← add_timers q (effects i)
    (ran, after) ← run_expired effects (suc i) q' es
    ok ((q.store e.1).callback ∷ ran, after)

  pub reset_one : TimerQueue d → Entry → Timestamp → Result (TimerQueue d)
  reset_one q e now =
      if (q.store e.1).repeat
      then (insert (record q { store = update q.store e.1 (restart d (q.store e.1) now) }) e.1
          >>= λ p. ok p.0)
      else ok q

  pub reset_each : TimerQueue d → List Entry → Timestamp → Result (TimerQueue d)
  reset_each q [] now = ok q
  reset_each q (e ∷ es) now = do q' ← reset_one q e now; reset_each q' es now

  abbrev pub next_expire : TimerQueue d → Timestamp
  next_expire q = elim q.timers [ [] ↦ invalid | e ∷ _ ↦ (q.store e.1).expiration ]

  -- `later` is the time when the timer descriptor is set.
  pub reset : TimerQueue d → List Entry → Timestamp → Timestamp → Result (TimerQueue d)
  reset q expired now later = do
    q' ← reset_each q expired now
    ok (if valid (next_expire q') then reset_timerfd q' (next_expire q') later else q')

  -- The descriptor has fired, and is set for no other time until it is set again.
  pub read_timerfd : TimerQueue d → TimerQueue d
  read_timerfd q = record q { alarm = none }

  pub handle_read :
      TimerQueue d
      → (now later : Timestamp) → (ℕ → List (Request d))
      → Result (List Callback × TimerQueue d)
  handle_read q now later effects = do
    (expired, q') ← get_expired (read_timerfd q) now
    (ran, after) ← run_expired effects 0 q' expired
    reset_queue ← reset after expired now later
    ok (ran, reset_queue)

  -- `TimerQueue()`, as far as the timers go: the channel of the descriptor belongs to the loop.
  pub create : (Address → Timer d) → TimerQueue d
  create store = record { store = store; timers = []; alarm = none }

  -- `EventLoop::runAt`, `runAfter` and `runEvery` in the thread of the loop; `now` is the time that they
  -- read, and `later` the one when the timer descriptor is set, if it is.
  pub run_at :
      TimerQueue d → Timestamp → Callback → Address → (later : Timestamp) → Result (TimerQueue d)
  run_at q time cb address later = add_timer q (record {
    callback = cb;
    when = time;
    interval = d.zero_seconds;
    address = address;
    now = later;
  })

  pub run_after :
      TimerQueue d
      → d.Seconds
      → Callback
      → Address
      → (now later : Timestamp) → Result (TimerQueue d)
  run_after q delay cb address now later = run_at q (add_time d now delay) cb address later

  pub run_every :
      TimerQueue d
      → d.Seconds
      → Callback
      → Address
      → (now later : Timestamp) → Result (TimerQueue d)
  run_every q interval cb address now later = add_timer q (record {
    callback = cb;
    when = add_time d now interval;
    interval = interval;
    address = address;
    now = later;
  })
