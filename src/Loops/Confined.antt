-- ===== src/Loops/Confined.antt =====
-- The calls of the threads of a process: whose loops they have, and which loops they change.
use second_gear.Common.{
  ℕ, ◌≡◌, ◌≢◌, refl, sym, ap, ◌∙◌, Bool, true, false, not, none, some, some-injective, Result, ok,
  err, ◌>>=◌, ◌>>◌, assert, subst, ℕ_discrete,
}
use second_gear.Time.{Callback}
use second_gear.Poller.{ChannelPtr, put}
use second_gear.Poller.Valid.{put_self, put_ne}
use second_gear.Loops.{
  ThreadId, LoopPtr, Loop, Process, Resources, get_event_loop_of_current_thread, begin_loop,
  no_loop, create_timerfd, create_eventfd, update_channel, remove_channel, enable_reading,
  new_timer_queue, new_event_loop, destroy_event_loop,
}
use second_gear.Loops.Local.{
  Through, IsLocal, IsLocal-trans, update_channel-Through, remove_channel-Through,
  enable_reading-Through, added-IsLocal,
}

-- What a thread may call.
pub data Call : Type 0 where
  opens : LoopPtr → Resources → (woken expired : Callback) → Call
  destroys : LoopPtr → Call
  updates : LoopPtr → ChannelPtr → Call
  removes : LoopPtr → ChannelPtr → Call
  reads : ChannelPtr → Call

abbrev pub perform : Process → ThreadId → Call → Result Process
perform w tid (opens this r woken expired) = new_event_loop w tid this r woken expired
perform w tid (destroys this) = destroy_event_loop w tid this
perform w tid (updates this channel) = update_channel w tid this channel
perform w tid (removes this channel) = remove_channel w tid this channel
perform w tid (reads channel) = enable_reading w tid channel

-- A new loop has an address that no thread has.
abbrev pub Fits : Process → Call → Type 0
Fits w (opens this r woken expired) = (t : ThreadId) → w.loop_in_this_thread t ≢ some this
Fits w (destroys this) = Unit
Fits w (updates this channel) = Unit
Fits w (removes this channel) = Unit
Fits w (reads channel) = Unit

-- The call does not make the loop.
abbrev pub IsOld : Call → LoopPtr → Type 0
IsOld (opens this r woken expired) q = q ≢ this
IsOld (destroys this) q = Unit
IsOld (updates this channel) q = Unit
IsOld (removes this channel) q = Unit
IsOld (reads channel) q = Unit

-- A thread has a loop of its own or none.
abbrev pub Owned : Process → Type 0
Owned w =
    (t : ThreadId) (p : LoopPtr)
    → get_event_loop_of_current_thread w t ≡ some p
    → (w.loops p).thread_id ≡ t

bind-ok {ℓ κ} :
    {S : Type ℓ} {T : Type κ} (r : Result S) (f : S → Result T) {x : T}
    → (r >>= f) ≡ ok x
    → (v : S) × (r ≡ ok v) × (f v ≡ ok x)
bind-ok (ok v) f h = (v, refl, h)
bind-ok (err e) f h = cc

assert-ok {ℓ} :
    {T : Type ℓ} (b : Bool) (r : Result T) {x : T}
    → (assert b >> r) ≡ ok x
    → (b ≡ true) × (r ≡ ok x)
assert-ok true r h = (refl, h)
assert-ok false r h = cc

-- The constructor that has come to its end.
new_event_loop-IsLocal :
    {x : Process} (w : Process) (tid : ThreadId) (this : LoopPtr) (r : Resources)
    (woken expired : Callback)
    → new_event_loop w tid this r woken expired ≡ ok x
    → (fd : ℕ) × IsLocal this (begin_loop w tid this fd r.store) x
unfolding new_event_loop new_timer_queue
new_event_loop-IsLocal w tid this r woken expired h =
    let (fd, e, rest) = bind-ok (create_eventfd r.eventfd) _ h in
    let (free, more) = assert-ok (no_loop (w.loop_in_this_thread tid)) _ rest in
    let (timed, f, last) = bind-ok _ _ more in
    let (timerfd, k, first) = bind-ok (create_timerfd r.timerfd) _ f in
    (
      fd,
      IsLocal-trans (added-IsLocal _ tid this r.timerfd_channel timerfd expired first)
          (added-IsLocal timed tid this r.wakeup_channel fd woken last),
    )

IsLocal-Owned : {this : LoopPtr} {w x : Process} → IsLocal this w x → Owned w → Owned x
IsLocal-Owned l g t p h = l.owner p ∙ g t p (ap (λ m. m t) (sym l.pointers) ∙ h)

begin_loop-Owned :
    (w : Process) (tid : ThreadId) (this : LoopPtr) (r : Resources) (fd : ℕ)
    → ((t : ThreadId) → w.loop_in_this_thread t ≢ some this)
    → Owned w
    → Owned (begin_loop w tid this fd r.store)
begin_loop-Owned w tid this r fd unused g t p h = elim (ℕ_discrete t tid) [
  | yes same ↦
      let mine : this ≡ p = some-injective _ _ (
        sym (put_self w.loop_in_this_thread tid (some this))
        ∙ ap (put w.loop_in_this_thread tid (some this)) (sym same)
        ∙ h) in
      ap (λ q. ((begin_loop w tid this fd r.store).loops q).thread_id) (sym mine)
      ∙ ap (λ (l : Loop). l.thread_id) (put_self w.loops this _)
      ∙ sym same
  | no ne ↦
      let old = sym (put_ne w.loop_in_this_thread tid (some this) t ne) ∙ h in
      ap (λ (l : Loop). l.thread_id) (put_ne w.loops this _ p (λ e. unused t (old ∙ ap some e)))
      ∙ g t p old
]

ok-injective : {x y : Process} → ok x ≡ ok y → x ≡ y
ok-injective h = cc

destroyed-Owned :
    {x : Process} (w : Process) (tid : ThreadId) (this : LoopPtr)
    → destroy_event_loop w tid this ≡ ok x
    → Owned w
    → Owned x × ((q : LoopPtr) → x.loops q ≡ w.loops q)
unfolding destroy_event_loop
destroyed-Owned w tid this h g =
    let e = ok-injective (assert-ok (not (w.loops this).functors.looping) _ h).1 in
    subst (λ (y : Process). Owned y × ((q : LoopPtr) → y.loops q ≡ w.loops q)) e
      (
        λ t p k. elim (ℕ_discrete t tid) [
          | yes same ↦ absurd (
              nothing (
                sym (put_self w.loop_in_this_thread tid none)
                ∙ ap (put w.loop_in_this_thread tid none) (sym same)
                ∙ k))
          | no ne ↦ g t p (sym (put_ne w.loop_in_this_thread tid none t ne) ∙ k)
        ],
        λ q. refl,
      )
  where
    nothing : {p : LoopPtr} → none ≢ some p
    nothing k = cc

abbrev pub Keeps : Process → Process → LoopPtr → Type 0
Keeps w x q = Owned x × (x.loops q ≡ w.loops q)

perform-Owned :
    {x : Process} (w : Process) (tid : ThreadId) (c : Call)
    → Owned w
    → Fits w c
    → perform w tid c ≡ ok x
    → Owned x
perform-Owned w tid (opens this r woken expired) g unused h =
    let (fd, l) = new_event_loop-IsLocal w tid this r woken expired h in
    IsLocal-Owned l (begin_loop-Owned w tid this r fd unused g)
perform-Owned w tid (destroys this) g fits h = (destroyed-Owned w tid this h g).0
perform-Owned w tid (updates this channel) g fits h =
    IsLocal-Owned (update_channel-Through w tid this channel h).1 g
perform-Owned w tid (removes this channel) g fits h =
    IsLocal-Owned (remove_channel-Through w tid this channel h).1 g
perform-Owned w tid (reads channel) g fits h =
    IsLocal-Owned (enable_reading-Through w tid channel h).1 g

-- A call through a loop leaves the loops of other threads alone.
through :
    {w x : Process} {tid : ThreadId} {this q : LoopPtr}
    → Owned x
    → (w.loops q).thread_id ≢ tid
    → Through tid this w x
    → Keeps w x q
through {w = w} owned other (mine, l) =
    (owned, l.others _ (λ e. other (ap (λ p. (w.loops p).thread_id) e ∙ mine)))

perform-Keeps :
    {x : Process} (w : Process) (tid : ThreadId) (c : Call)
    → Owned w
    → Fits w c
    → perform w tid c ≡ ok x
    → (q : LoopPtr) → (w.loops q).thread_id ≢ tid
    → IsOld c q
    → Keeps w x q
perform-Keeps w tid (opens this r woken expired) g unused h q other old = (
  perform-Owned w tid (opens this r woken expired) g unused h,
  (new_event_loop-IsLocal w tid this r woken expired h).1.others q old
      ∙ put_ne w.loops this _ q old,
)
perform-Keeps w tid (destroys this) g fits h q other old =
    let (owned, same) = destroyed-Owned w tid this h g in (owned, same q)
perform-Keeps w tid (updates this channel) g fits h q other old =
    through (perform-Owned w tid (updates this channel) g fits h) other
      (update_channel-Through w tid this channel h)
perform-Keeps w tid (removes this channel) g fits h q other old =
    through (perform-Owned w tid (removes this channel) g fits h) other
      (remove_channel-Through w tid this channel h)
perform-Keeps w tid (reads channel) g fits h q other old =
    through (perform-Owned w tid (reads channel) g fits h) other
      (enable_reading-Through w tid channel h)

-- Calls of any threads, one after the other, that come to their end.
pub data Calls (w : Process) : Process → Type 0 where
  done : Calls w w
  next :
      {x y : Process}
      → Calls w x
      → (tid : ThreadId) (c : Call) → Fits x c
      → perform x tid c ≡ ok y
      → Calls w y

Calls-Owned : {w x : Process} → Owned w → Calls w x → Owned x
Calls-Owned g done = g
Calls-Owned g (next calls tid c fits e) = perform-Owned _ tid c (Calls-Owned g calls) fits e

-- Threads that have loops of their own or none, after any calls that any of them make and that
-- come to their end, each on an address that no thread has if it makes a loop: a call of the same
-- kind that a thread then makes and that comes to its end leaves every thread with a loop of its
-- own or none, so that it passes the test of assertInLoopThread there; and it changes no loop
-- that belongs to another thread, unless it makes one in its place.
pub Calls-Keeps :
    {w x y : Process}
    → Owned w
    → Calls w x
    → (tid : ThreadId) (c : Call) → Fits x c
    → perform x tid c ≡ ok y
    → (q : LoopPtr) → (x.loops q).thread_id ≢ tid
    → IsOld c q
    → Keeps x y q
Calls-Keeps g calls tid c fits e q other old =
    perform-Keeps _ tid c (Calls-Owned g calls) fits e q other old
