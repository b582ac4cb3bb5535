-- ===== src/Main/Ready.antt =====
-- The set-up of the program: a loop, and a server that listens.
use second_gear.Common.{
  ℕ, ◌≡◌, ◌≢◌, refl, sym, ap, ap₂, ◌∙◌, true, [], ◌∷◌, ◌++◌, none, some, some-injective, ok, ==_iff,
  subst, ℕ_discrete,
}
use second_gear.Time.{Callback}
use second_gear.Channel.{Channel}
use second_gear.Poller.{ChannelPtr, Poller}
use second_gear.Poller.Valid
use second_gear.Poller.Valid.{put_self}
use second_gear.Poller.Fresh.{Unmapped, Waits, Waits-kept, reading_entry}
use second_gear.Net.{success}
use second_gear.Loops.{
  ThreadId, LoopPtr, Loop, Process, Resources, Acceptor, new_acceptor, new_event_loop,
  enable_reading, new_channel, listen,
}
use second_gear.Loops.Adds.{made, made_fd, made-Waits, Adds, enable_reading-Adds}
use second_gear.Loops.Open.{Opened, Constructs, new_event_loop-Constructs}
use second_gear.TcpServer.{Name, TcpServer, create, start}
use second_gear.Main.{System, set_up}

-- What a system gives that refuses nothing: three descriptors, and addresses for three channels.
pub record Given : Type 0 where
  pub wakeup_fd : ℕ
  pub timerfd : ℕ
  pub accept_fd : ℕ
  pub store : ChannelPtr → Channel
  pub wakeup_channel : ChannelPtr
  pub timerfd_channel : ChannelPtr
  pub accept_channel : ChannelPtr

-- They are apart.
pub record IsApart (y : Given) : Type 0 where
  pub wakeup-timer : y.wakeup_fd ≢ y.timerfd
  pub accept-wakeup : y.accept_fd ≢ y.wakeup_fd
  pub accept-timer : y.accept_fd ≢ y.timerfd
  pub wakeup-timer_channel : y.wakeup_channel ≢ y.timerfd_channel
  pub accept-wakeup_channel : y.accept_channel ≢ y.wakeup_channel
  pub accept-timer_channel : y.accept_channel ≢ y.timerfd_channel

abbrev pub system : Given → System
system y = record {
  loop = record {
    eventfd = success y.wakeup_fd;
    timerfd = success y.timerfd;
    store = y.store;
    wakeup_channel = y.wakeup_channel;
    timerfd_channel = y.timerfd_channel;
  };
  socket = success y.accept_fd;
  bound = success tt;
  listening = success tt;
  accept_channel = y.accept_channel;
}

-- The poller waits for input on the three descriptors.
pub record Watches (y : Given) (woken expired accepted : Callback) (s : Poller) : Type 0 where
  pub timer : Waits s y.timerfd_channel y.timerfd expired
  pub wakeup : Waits s y.wakeup_channel y.wakeup_fd woken
  pub acceptor : Waits s y.accept_channel y.accept_fd accepted

pub record IsReady (tid : ThreadId) (this : LoopPtr) (y : Given) (woken expired accepted : Callback)
    (server : TcpServer) (acceptor : Acceptor) (x : Process) : Type 0 where
  pub current : x.loop_in_this_thread tid ≡ some this
  pub thread : (x.loops this).thread_id ≡ tid
  pub valid : second_gear.Poller.Valid.IsValid (x.loops this).poller
  pub pollfds :
      (x.loops this).poller.pollfds
      ≡ reading_entry y.timerfd ∷ reading_entry y.wakeup_fd ∷ reading_entry y.accept_fd ∷ []
  pub watches : Watches y woken expired accepted (x.loops this).poller
  pub only :
      (fd : ℕ)
      → fd ≢ y.timerfd
      → fd ≢ y.wakeup_fd
      → fd ≢ y.accept_fd
      → (x.loops this).poller.channels fd ≡ none
  pub listens : acceptor.listenning ≡ true
  pub told : server.listenning ≡ true
  pub nobody : server.connections ≡ []

-- The calls of the set-up one after the other.
runs :
    (w : Process) (tid : ThreadId) (this : LoopPtr) (y : Given) (woken expired accepted : Callback)
    (name : Name) (looped x : Process)
    → new_event_loop w tid this (system y).loop woken expired ≡ ok looped
    → ((new_channel looped this y.accept_channel y.accept_fd accepted).loops this).thread_id ≡ tid
    → enable_reading
        (new_channel looped this y.accept_channel y.accept_fd accepted)
        tid
        y.accept_channel
      ≡ ok x
    → set_up w tid this (system y) woken expired accepted name
      ≡ ok (
        start (create name),
        record { accept_fd = y.accept_fd; accept_channel = y.accept_channel; listenning = true },
        x,
      )
unfolding set_up new_acceptor listen
runs w tid this y woken expired accepted name looped x a thread b =
    rw
      (
        a,
        (==_iff
              ((new_channel looped this y.accept_channel y.accept_fd accepted).loops this).thread_id
              tid).1
            thread,
        b,
      )
      refl

module _ (w : Process) (tid : ThreadId) (this : LoopPtr) (y : Given)
    (woken expired accepted : Callback) (free : w.loop_in_this_thread tid ≡ none)
    (apart : IsApart y) where
  abbrev r : Resources
  r = (system y).loop

  looped-Opened :
      (x : Process) × (new_event_loop w tid this r woken expired ≡ ok x)
      × Opened w tid this r y.wakeup_fd y.timerfd woken expired x
  looped-Opened =
      subst
        (λ c.
          Constructs w tid this r woken expired (success y.wakeup_fd) (success y.timerfd) c
            (new_event_loop w tid this r woken expired))
        free
        (new_event_loop-Constructs w tid this r woken expired apart.wakeup-timer
          apart.wakeup-timer_channel)

  abbrev looped : Process
  looped = looped-Opened.0

  accept-Unmapped : Unmapped (looped.loops this).poller y.accept_channel
  accept-Unmapped fd h = elim (ℕ_discrete fd y.timerfd) [
    | yes same ↦ apart.accept-timer_channel (clash same looped-Opened.2.timer.mapped)
    | no ne ↦ elim (ℕ_discrete fd y.wakeup_fd) [
      | yes same ↦ apart.accept-wakeup_channel (clash same looped-Opened.2.wakeup.mapped)
      | no other ↦ nothing (sym (looped-Opened.2.only fd ne other) ∙ h)
    ]
  ]
    where
      nothing : {c : ChannelPtr} → none ≢ some c
      nothing e = cc

      clash :
          {f : ℕ} {c : ChannelPtr}
          → fd ≡ f
          → (looped.loops this).poller.channels f ≡ some c
          → y.accept_channel ≡ c
      clash same at = some-injective _ _ (sym h ∙ ap (looped.loops this).poller.channels same ∙ at)

  listened-Adds :
      (x : Process) × (enable_reading
          (new_channel looped this y.accept_channel y.accept_fd accepted)
          tid
          y.accept_channel
        ≡ ok x)
      × Adds looped this y.accept_channel (made y.accept_fd accepted) x
  listened-Adds =
      let o = looped-Opened.2 in
      enable_reading-Adds looped tid this y.accept_channel y.accept_fd accepted o.thread o.valid
        accept-Unmapped (o.only y.accept_fd apart.accept-timer apart.accept-wakeup)

  -- The set-up of the program in a thread that has no loop, where the system refuses nothing and gives
  -- three descriptors and three addresses for channels that are apart: no assertion fails. The thread has
  -- the loop and the loop the thread, the server and its acceptor listen, there is no connection, and the
  -- poller is valid, has and polls for input, in this order and nothing else, the timers' descriptor, the one
  -- that wakes the loop and the one that listens, each with the channel that calls its own handleRead.
  pub set_up-IsReady :
      (name : Name)
      → (server : TcpServer) × (acceptor : Acceptor) × (x : Process) × (set_up w tid this
            (system y)
            woken
            expired
            accepted
            name
          ≡ ok (server, acceptor, x))
        × IsReady tid this y woken expired accepted server acceptor x
  unfolding start
  set_up-IsReady name =
      let o = looped-Opened.2 in
      let b = listened-Adds.2 in
      let fd = made_fd y.accept_fd accepted in
      (
        start (create name),
        record { accept_fd = y.accept_fd; accept_channel = y.accept_channel; listenning = true },
        listened-Adds.0,
        runs w tid this y woken expired accepted name looped listened-Adds.0 looped-Opened.1
            (ap (λ (l : Loop). l.thread_id) (put_self looped.loops this _) ∙ o.thread)
            listened-Adds.1,
        record {
          current = ap (λ m. m tid) b.threads ∙ o.current;
          thread = b.thread ∙ o.thread;
          valid = b.opens.registered.valid;
          pollfds = b.opens.pollfds ∙ ap₂ (λ ps f. ps ++ (reading_entry f ∷ [])) o.pollfds fd;
          watches = record {
            timer =
                Waits-kept b.opens (λ h. apart.accept-timer_channel (sym h))
                  (λ h. apart.accept-timer (sym (h ∙ fd))) o.timer;
            wakeup =
                Waits-kept b.opens (λ h. apart.accept-wakeup_channel (sym h))
                  (λ h. apart.accept-wakeup (sym (h ∙ fd))) o.wakeup;
            acceptor = made-Waits b.opens;
          };
          only = λ f n m k. b.opens.channels f (λ h. k (h ∙ fd)) ∙ o.only f n m;
          listens = refl;
          told = refl;
          nobody = refl;
        },
      )
