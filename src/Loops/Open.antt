-- ===== src/Loops/Open.antt =====
-- The constructor of a loop.
use second_gear.Common.{
  ℕ, ◌≡◌, ◌≢◌, refl, sym, ap, ap₂, ◌∙◌, ℕ_discrete, [], ◌∷◌, ◌++◌, Option, none, some,
  some-injective, Result, ok, err, assertion, aborted, subst,
}
use second_gear.Time.{Callback}
use second_gear.Poller.{ChannelPtr, PollFd, Poller, put}
use second_gear.Poller.Valid
use second_gear.Poller.Valid.{put_self, put_ne, create-IsValid}
use second_gear.Poller.Fresh.{Waits, Waits-kept, Unmapped, reading_entry}
use second_gear.Poller
use second_gear.EventLoop
use second_gear.Net.{SysResult, success, failure}
use second_gear.Loops.{
  ThreadId, LoopPtr, Loop, Process, Resources, begin_loop, new_timer_queue, new_event_loop,
  enable_reading, new_channel,
}
use second_gear.Loops.Adds.{made, made_fd, made-Waits, Adds, enable_reading-Adds}

-- What the constructor leaves: the thread has the loop, whose poller watches the timers' descriptor and
-- the one that wakes it, and the other threads and loops are as they were.
pub record Opened (w : Process) (tid : ThreadId) (this : LoopPtr) (r : Resources)
    (wakeup_fd timerfd : ℕ) (woken expired : Callback) (x : Process) : Type 0 where
  pub current : x.loop_in_this_thread tid ≡ some this
  pub threads : (t : ThreadId) → t ≢ tid → x.loop_in_this_thread t ≡ w.loop_in_this_thread t
  pub loops : (q : LoopPtr) → q ≢ this → x.loops q ≡ w.loops q
  pub thread : (x.loops this).thread_id ≡ tid
  pub wakes : (x.loops this).wakeup_fd ≡ wakeup_fd
  pub valid : second_gear.Poller.Valid.IsValid (x.loops this).poller
  pub pollfds : (x.loops this).poller.pollfds ≡ reading_entry timerfd ∷ reading_entry wakeup_fd ∷ []
  pub timer : Waits (x.loops this).poller r.timerfd_channel timerfd expired
  pub wakeup : Waits (x.loops this).poller r.wakeup_channel wakeup_fd woken
  pub only : (fd : ℕ) → fd ≢ timerfd → fd ≢ wakeup_fd → (x.loops this).poller.channels fd ≡ none

-- `no`: the poller of a loop that has just begun has nothing.
nothing : {c : ChannelPtr} → none ≢ some c
nothing h = cc

module _ (w : Process) (tid : ThreadId) (this : LoopPtr) (r : Resources) (woken expired : Callback)
    (wakeup_fd timerfd : ℕ) (fds : wakeup_fd ≢ timerfd)
    (channels : r.wakeup_channel ≢ r.timerfd_channel) where
  abbrev begun : Process
  begun = begin_loop w tid this wakeup_fd r.store

  begun_loop : begun.loops this ≡ record {
    thread_id = tid;
    wakeup_fd = wakeup_fd;
    functors = second_gear.EventLoop.create;
    poller = second_gear.Poller.create r.store;
  }
  begun_loop = put_self w.loops this _

  begun-IsValid : second_gear.Poller.Valid.IsValid (begun.loops this).poller
  begun-IsValid =
      subst (λ (l : Loop). second_gear.Poller.Valid.IsValid l.poller) (sym begun_loop)
        (create-IsValid r.store)

  begun_none : (fd : ℕ) → (begun.loops this).poller.channels fd ≡ none
  begun_none fd = ap (λ (l : Loop). l.poller.channels fd) begun_loop

  timed-Adds :
      (x : Process) × (enable_reading
          (new_channel begun this r.timerfd_channel timerfd expired)
          tid
          r.timerfd_channel
        ≡ ok x)
      × Adds begun this r.timerfd_channel (made timerfd expired) x
  timed-Adds =
      enable_reading-Adds begun tid this r.timerfd_channel timerfd expired
        (ap (λ (l : Loop). l.thread_id) begun_loop) begun-IsValid
        (λ fd h. nothing (sym (begun_none fd) ∙ h)) (begun_none timerfd)

  abbrev timed : Process
  timed = timed-Adds.0

  timed_only : (fd : ℕ) → fd ≢ timerfd → (timed.loops this).poller.channels fd ≡ none
  timed_only fd ne =
      timed-Adds.2.opens.channels fd (λ h. ne (h ∙ made_fd timerfd expired)) ∙ begun_none fd

  timed-Unmapped : Unmapped (timed.loops this).poller r.wakeup_channel
  timed-Unmapped fd h = elim (ℕ_discrete fd timerfd) [
    | yes same ↦ channels (
        some-injective _ _ (
          sym h
          ∙ ap (timed.loops this).poller.channels (same ∙ sym (made_fd timerfd expired))
          ∙ timed-Adds.2.opens.mapped))
    | no ne ↦ nothing (sym (timed_only fd ne) ∙ h)
  ]

  woken-Adds :
      (x : Process) × (enable_reading
          (new_channel timed this r.wakeup_channel wakeup_fd woken)
          tid
          r.wakeup_channel
        ≡ ok x)
      × Adds timed this r.wakeup_channel (made wakeup_fd woken) x
  woken-Adds =
      enable_reading-Adds timed tid this r.wakeup_channel wakeup_fd woken
        (timed-Adds.2.thread ∙ ap (λ (l : Loop). l.thread_id) begun_loop)
        timed-Adds.2.opens.registered.valid timed-Unmapped (timed_only wakeup_fd fds)

  both-Opened : Opened w tid this r wakeup_fd timerfd woken expired woken-Adds.0
  both-Opened =
      let a = timed-Adds.2 in
      let b = woken-Adds.2 in
      record {
        current =
            ap (λ m. m tid) (b.threads ∙ a.threads)
            ∙ put_self w.loop_in_this_thread tid (some this);
        threads = λ t ne.
            ap (λ m. m t) (b.threads ∙ a.threads)
            ∙ put_ne w.loop_in_this_thread tid (some this) t ne;
        loops = λ q ne. b.others q ne ∙ a.others q ne ∙ put_ne w.loops this _ q ne;
        thread = b.thread ∙ a.thread ∙ ap (λ (l : Loop). l.thread_id) begun_loop;
        wakes = b.wakeup_fd ∙ a.wakeup_fd ∙ ap (λ (l : Loop). l.wakeup_fd) begun_loop;
        valid = b.opens.registered.valid;
        pollfds =
            b.opens.pollfds
            ∙ ap₂ (λ ps fd. ps ++ (reading_entry fd ∷ []))
                (a.opens.pollfds
                  ∙ ap₂ (λ (l : Loop) fd. l.poller.pollfds ++ (reading_entry fd ∷ [])) begun_loop
                      (made_fd timerfd expired))
                (made_fd wakeup_fd woken);
        timer =
            Waits-kept b.opens (λ h. channels (sym h))
              (λ h. fds (sym (h ∙ made_fd wakeup_fd woken))) (made-Waits a.opens);
        wakeup = made-Waits b.opens;
        only =
            λ fd n m. b.opens.channels fd (λ h. m (h ∙ made_fd wakeup_fd woken)) ∙ timed_only fd n;
      }

-- What becomes of the constructor.
abbrev pub Constructs :
    Process
    → ThreadId
    → LoopPtr
    → Resources
    → Callback
    → Callback
    → SysResult ℕ
    → SysResult ℕ
    → Option LoopPtr
    → Result Process
    → Type 0
Constructs w tid this r woken expired (failure errno) t current x = x ≡ err aborted
Constructs w tid this r woken expired (success wakeup_fd) t (some other) x = x ≡ err assertion
Constructs w tid this r woken expired (success wakeup_fd) (failure errno) none x = x ≡ err assertion
Constructs w tid this r woken expired (success wakeup_fd) (success timerfd) none x =
    (y : Process) × (x ≡ ok y) × Opened w tid this r wakeup_fd timerfd woken expired y

-- Two descriptors that are there are two.
abbrev pub Apart : SysResult ℕ → SysResult ℕ → Type 0
Apart (failure errno) t = Unit
Apart (success e) (failure errno) = Unit
Apart (success e) (success t) = e ≢ t

-- The calls of the constructor one after the other.
runs :
    (w : Process) (tid : ThreadId) (this : LoopPtr) (r : Resources) (woken expired : Callback)
    (wakeup_fd timerfd : ℕ) (y z : Process)
    → r.eventfd ≡ success wakeup_fd
    → r.timerfd ≡ success timerfd
    → w.loop_in_this_thread tid ≡ none
    → enable_reading
        (new_channel
          (begin_loop w tid this wakeup_fd r.store)
          this
          r.timerfd_channel
          timerfd
          expired)
        tid
        r.timerfd_channel
      ≡ ok y
    → enable_reading (new_channel y this r.wakeup_channel wakeup_fd woken) tid r.wakeup_channel
      ≡ ok z
    → new_event_loop w tid this r woken expired ≡ ok z
unfolding new_event_loop new_timer_queue
runs w tid this r woken expired wakeup_fd timerfd y z he ht hc a b = rw (he, hc, ht, a) b

constructs :
    (w : Process) (tid : ThreadId) (this : LoopPtr) (r : Resources) (woken expired : Callback)
    (e t : SysResult ℕ) (current : Option LoopPtr)
    → r.eventfd ≡ e
    → r.timerfd ≡ t
    → w.loop_in_this_thread tid ≡ current
    → Apart e t
    → r.wakeup_channel ≢ r.timerfd_channel
    → Constructs w tid this r woken expired e t current (new_event_loop w tid this r woken expired)
unfolding new_event_loop new_timer_queue
constructs w tid this r woken expired (failure errno) t current he ht hc fds channels = rw he refl
constructs w tid this r woken expired (success wakeup_fd) t (some other) he ht hc fds channels =
    rw (he, hc) refl
constructs w tid this r woken expired (success wakeup_fd) (failure errno) none he ht hc fds
      channels =
    rw (he, hc, ht) refl
constructs w tid this r woken expired (success wakeup_fd) (success timerfd) none he ht hc fds
      channels =
    let a = timed-Adds w tid this r woken expired wakeup_fd timerfd fds channels in
    let b = woken-Adds w tid this r woken expired wakeup_fd timerfd fds channels in
    (
      b.0,
      runs w tid this r woken expired wakeup_fd timerfd a.0 b.0 he ht hc a.1 b.1,
      both-Opened w tid this r woken expired wakeup_fd timerfd fds channels,
    )

-- The constructor of a loop in any thread of a process, with two addresses for its channels and, where the
-- system gives them, two descriptors. If there is no descriptor to wake the loop, it aborts; otherwise, if
-- the thread has a loop already, or if there is no descriptor for the timers, an assertion fails.
-- In all other cases no assertion fails. The thread has the loop and the loop the thread; the poller is
-- valid, and polls the timers' descriptor and then the one that wakes the loop, both for input, and
-- nothing else, with channels that call the two functions handleRead; and the loops of the other threads
-- and all other loops are as they were.
pub new_event_loop-Constructs :
    (w : Process) (tid : ThreadId) (this : LoopPtr) (r : Resources) (woken expired : Callback)
    → Apart r.eventfd r.timerfd
    → r.wakeup_channel ≢ r.timerfd_channel
    → Constructs w tid this r woken expired r.eventfd r.timerfd
        (w.loop_in_this_thread tid)
        (new_event_loop w tid this r woken expired)
new_event_loop-Constructs w tid this r woken expired fds channels =
    constructs w tid this r woken expired _ _ _ refl refl refl fds channels
