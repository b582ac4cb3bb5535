-- ===== src/Main/Tests.antt =====
-- A program without arguments, its set-up and its first connection.
use second_gear.Common.{
  ℕ, ◌≡◌, ◌≢◌, refl, sym, ap, ◌∙◌, subst, All, [], ◌∷◌, none, some, some-injective, ok, arith,
  length, replicate, length-replicate, ℕ_discrete,
}
use second_gear.Common.Int.{pos}
use second_gear.Channel.{Channel, new_channel}
use second_gear.Poller.{ChannelPtr, Poller, create}
use second_gear.Poller.Valid.{create-IsValid}
use second_gear.Poller.Fresh.{Unmapped}
use second_gear.Buffer.Valid.{fresh}
use second_gear.TcpConnection.{TcpConnection, connecting, took, write_failed}
use second_gear.TcpServer.{Name, ConnectionPtr, TcpServer}
use second_gear.Server.{Server}
use second_gear.Server.Serve.{Request, accepts, Serves, done}
use second_gear.EventLoop
use second_gear.Loops.{Loop, Process, Acceptor}
use second_gear.Main.{on_message, lengths, messages, set_up}
use second_gear.Main.Greeting.{Greets, messages-Greets}
use second_gear.Main.Ready.{Given, IsApart, system, IsReady, Watches, set_up-IsReady}
use second_gear.Main.Service.{serving, set_up-Serves}

abbrev store : ChannelPtr → Channel
store p = new_channel 5

-- The first message goes in part, the second has to wait.
messages-Greets_example :
    Greets
      (create store)
      3
      7
      11
      (took 4, write_failed 11)
      (messages (λ text. pos 6) ((83 ∷ []) ∷ []))
      (pos 10)
      (pos 20)
unfolding lengths
messages-Greets_example =
    messages-Greets (create store) 3 7 11 (took 4, write_failed 11) (create-IsValid store)
      (λ fd h. cc) refl (λ text. pos 6) ((83 ∷ []) ∷ []) (omega arith) (omega arith)

abbrev empty_loop : Loop
empty_loop = record {
  thread_id = 0;
  wakeup_fd = 0;
  functors = second_gear.EventLoop.create;
  poller = create store;
}

abbrev idle : Process
idle = record { loop_in_this_thread = λ t. none; loops = λ p. empty_loop; owner_loop = λ c. 0 }

abbrev given : Given
given = record {
  wakeup_fd = 5;
  timerfd = 4;
  accept_fd = 3;
  store = store;
  wakeup_channel = 21;
  timerfd_channel = 20;
  accept_channel = 22;
}

given-IsApart : IsApart given
given-IsApart = record {
  wakeup-timer = omega arith;
  accept-wakeup = omega arith;
  accept-timer = omega arith;
  wakeup-timer_channel = omega arith;
  accept-wakeup_channel = omega arith;
  accept-timer_channel = omega arith;
}

-- What the set-up comes to, for thread 100 and a loop at address 1.
abbrev SetUp : Name → Type 0
SetUp name =
    (server : TcpServer) × (acceptor : Acceptor) × (x : Process) × (set_up idle 100 1 (system given)
        91 92 93 name
      ≡ ok (server, acceptor, x))
    × IsReady 100 1 given 91 92 93 server acceptor x

begun : SetUp []
begun = set_up-IsReady idle 100 1 given 91 92 93 refl given-IsApart []

set_up-IsReady_example : SetUp []
set_up-IsReady_example = set_up-IsReady idle 100 1 given 91 92 93 refl given-IsApart []

abbrev x : Process
x = begun.2

abbrev poller : Poller
poller = (x.loops 1).poller

ready : IsReady 100 1 given 91 92 93 begun.0 begun.1 x
ready = begun.4

abbrev nobody : ConnectionPtr → TcpConnection
nobody p = record {
  poller = create store;
  channel = 0;
  state = connecting;
  input_buffer = fresh;
  output_buffer = fresh;
  effects = [];
}

abbrev started : Server
started = serving begun.0 poller nobody

-- Nothing has address 30.
clash : {b : ℕ} (fd : ℕ) → poller.channels fd ≡ some b → 30 ≢ b → poller.channels fd ≢ some 30
clash fd at ne h = ne (some-injective _ _ (sym h ∙ at))

thirty-Unmapped : Unmapped poller 30
thirty-Unmapped fd h = elim (ℕ_discrete fd 4) [
  | yes e ↦ clash fd (ap poller.channels e ∙ ready.watches.timer.mapped) (omega arith) h
  | no a ↦ elim (ℕ_discrete fd 5) [
    | yes e ↦ clash fd (ap poller.channels e ∙ ready.watches.wakeup.mapped) (omega arith) h
    | no b ↦ elim (ℕ_discrete fd 3) [
      | yes e ↦ clash fd (ap poller.channels e ∙ ready.watches.acceptor.mapped) (omega arith) h
      | no c ↦ nothing (sym (ready.only fd a b c) ∙ h)
    ]
  ]
]
  where
    nothing : {b : ℕ} → none ≢ some b
    nothing e = cc

-- Connection 8 with socket 7 and its channel at address 30.
accepting : Request started
accepting =
    accepts 8 7 30 (subst (All (λ e. e.1 ≢ 8)) (sym ready.nobody) tt, tt) thirty-Unmapped
      (ready.only 7 (omega arith) (omega arith) (omega arith))

abbrev ones : ℕ → Name
ones n = replicate n 49

ones_apart : (i j : ℕ) → ones i ≡ ones j → i ≡ j
ones_apart i j h = sym (length-replicate i 49) ∙ ap length h ∙ length-replicate j 49

set_up-Serves_example :
    Watches given 91 92 93 poller × Serves on_message ones poller started accepting
set_up-Serves_example =
    set_up-Serves ones ones_apart idle 100 1 given 91 92 93 refl given-IsApart [] nobody begun.3
      done accepting
