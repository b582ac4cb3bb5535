-- ===== src/Loops.antt =====
-- The event loops of a process and their threads: the constructor and the destructor of EventLoop.cpp,
-- its tests of the calling thread, and what goes to the poller through it; the constructor of
-- TimerQueue.cpp; the constructor of Acceptor.cpp and `listen`. A thread and a loop are numbers, `tid` is
-- the thread that calls, and `this` the loop. What a system call did is an argument.
pub mod Adds
pub mod Open
pub mod Local
pub mod Confined
mod Tests
use second_gear.Common.{
  ℕ, Bool, true, false, not, Option, none, some, Result, ok, err, assertion, ◌>>=◌, ◌>>◌, assert,
  ◌==◌,
}
use second_gear.Time.{Callback}
use second_gear.Channel as Made
use second_gear.Channel.{Channel, reading_enabled}
use second_gear.Poller as Polled
use second_gear.Poller.{ChannelPtr, Poller, put}
use second_gear.EventLoop as Functors
use second_gear.EventLoop.{EventLoop}
use second_gear.Net.{
  SysResult, success, failure, or_die, create_nonblocking_or_die, bind_or_die, listen_or_die,
}

abbrev pub ThreadId : Type 0
ThreadId = ℕ

abbrev pub LoopPtr : Type 0
LoopPtr = ℕ

pub record Loop : Type 0 where
  pub thread_id : ThreadId
  pub wakeup_fd : ℕ
  pub functors : EventLoop
  pub poller : Poller

-- `t_loopInThisThread` of each thread, the loops at their addresses, and the `loop_` of each channel.
pub record Process : Type 0 where
  pub loop_in_this_thread : ThreadId → Option LoopPtr
  pub loops : LoopPtr → Loop
  pub owner_loop : ChannelPtr → LoopPtr

abbrev pub get_event_loop_of_current_thread : Process → ThreadId → Option LoopPtr
get_event_loop_of_current_thread w tid = w.loop_in_this_thread tid

abbrev pub is_in_loop_thread : Loop → ThreadId → Bool
is_in_loop_thread l tid = l.thread_id == tid

abbrev pub assert_in_loop_thread : Process → ThreadId → LoopPtr → Result (Unit {0})
assert_in_loop_thread w tid this = assert (is_in_loop_thread (w.loops this) tid)

abbrev pub with_poller : Process → LoopPtr → Poller → Process
with_poller w this s = record w { loops = put w.loops this (record (w.loops this) { poller = s }) }

pub update_channel : Process → ThreadId → LoopPtr → ChannelPtr → Result Process
update_channel w tid this channel = do
  assert (w.owner_loop channel == this)
  assert_in_loop_thread w tid this
  s ← Polled.update_channel (w.loops this).poller channel
  ok (with_poller w this s)

pub remove_channel : Process → ThreadId → LoopPtr → ChannelPtr → Result Process
remove_channel w tid this channel = do
  assert (w.owner_loop channel == this)
  assert_in_loop_thread w tid this
  s ← Polled.remove_channel (w.loops this).poller channel
  ok (with_poller w this s)

-- `new Channel(loop, fd)` at the address `channel`, and `setReadCallBack`.
abbrev pub new_channel : Process → LoopPtr → ChannelPtr → ℕ → Callback → Process
new_channel w this channel fd read =
    let s = (w.loops this).poller in
    let made : Channel = record (Made.new_channel fd) { read_callback = some read } in
    record (with_poller w this (record s { store = put s.store channel made })) {
      owner_loop = put w.owner_loop channel this;
    }

-- `enableReading()`, and `update()`, which calls the loop of the channel.
pub enable_reading : Process → ThreadId → ChannelPtr → Result Process
enable_reading w tid channel =
    let this = w.owner_loop channel in
    let s = (w.loops this).poller in
    let reading : Poller = record s {
      store = put s.store channel (reading_enabled (s.store channel));
    } in
    update_channel (with_poller w this reading) tid this channel

abbrev pub create_timerfd : SysResult ℕ → Result ℕ
create_timerfd (success timerfd) = ok timerfd
create_timerfd (failure errno) = err assertion

pub new_timer_queue :
    Process → ThreadId → LoopPtr → SysResult ℕ → ChannelPtr → (read : Callback) → Result Process
new_timer_queue w tid this created channel read = do
  timerfd ← create_timerfd created
  enable_reading (new_channel w this channel timerfd read) tid channel

abbrev pub create_eventfd : SysResult ℕ → Result ℕ
create_eventfd created = or_die created

abbrev pub no_loop : Option LoopPtr → Bool
no_loop none = true
no_loop (some other) = false

-- What the constructor is given by the system: descriptors, and addresses of channels, at which `store`
-- says what lay before.
pub record Resources : Type 0 where
  pub eventfd : SysResult ℕ
  pub timerfd : SysResult ℕ
  pub store : ChannelPtr → Channel
  pub wakeup_channel : ChannelPtr
  pub timerfd_channel : ChannelPtr

-- The constructor up to the poller.
abbrev pub begin_loop :
    Process → ThreadId → LoopPtr → (wakeup_fd : ℕ) → (ChannelPtr → Channel) → Process
begin_loop w tid this wakeup_fd store = record w {
  loop_in_this_thread = put w.loop_in_this_thread tid (some this);
  loops = put w.loops this (record {
    thread_id = tid;
    wakeup_fd = wakeup_fd;
    functors = Functors.create;
    poller = Polled.create store;
  });
}

-- `woken` and `expired` stand for the two functions `handleRead`.
pub new_event_loop :
    Process → ThreadId → LoopPtr → Resources → (woken expired : Callback) → Result Process
new_event_loop w tid this r woken expired = do
  wakeup_fd ← create_eventfd r.eventfd
  assert (no_loop (w.loop_in_this_thread tid))
  timed ←
      new_timer_queue (begin_loop w tid this wakeup_fd r.store) tid this r.timerfd r.timerfd_channel
        expired
  enable_reading (new_channel timed this r.wakeup_channel wakeup_fd woken) tid r.wakeup_channel

-- As in the source, it is the pointer of the thread that calls.
pub destroy_event_loop : Process → ThreadId → LoopPtr → Result Process
destroy_event_loop w tid this = do
  assert (not (w.loops this).functors.looping)
  ok (record w { loop_in_this_thread = put w.loop_in_this_thread tid none })

pub record Acceptor : Type 0 where
  pub accept_fd : ℕ
  pub accept_channel : ChannelPtr
  pub listenning : Bool

-- `accepted` stands for `handleRead`.
unfoldable pub new_acceptor :
    Process
    → LoopPtr
    → (socket : SysResult ℕ) → (bound : SysResult (Unit {0})) → ChannelPtr
    → (accepted : Callback) → Result (Acceptor × Process)
new_acceptor w this socket bound channel accepted = do
  fd ← create_nonblocking_or_die socket
  let made : Process = new_channel w this channel fd accepted
  bind_or_die bound
  ok (record { accept_fd = fd; accept_channel = channel; listenning = false }, made)

unfoldable pub listen :
    Process → ThreadId → LoopPtr → Acceptor → SysResult (Unit {0}) → Result (Acceptor × Process)
listen w tid this acceptor listening = do
  assert_in_loop_thread w tid this
  listen_or_die listening
  on ← enable_reading w tid acceptor.accept_channel
  ok (record acceptor { listenning = true }, on)
