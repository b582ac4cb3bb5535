-- ===== src/TcpConnection.antt =====
-- TcpConnection.h and TcpConnection.cpp, in the thread of the loop. The name and the addresses never
-- change and are left out. What `write` and `readv` did is an argument. The callbacks of the user and of
-- the server, the bytes that the kernel takes, the end of the stream and the functors that go to the
-- loop are effects, in their order.
pub mod Open
pub mod Send
pub mod Flush
pub mod Order
pub mod Frame
pub mod Establish
pub mod Close
pub mod Late
pub mod Mute
mod Tests
use second_gear.Common.{
  ℕ, zero, suc, Bool, true, false, ◌&&◌, ◌||◌, not, List, [], ◌∷◌, ◌++◌, some, Result, ok, ◌>>=◌,
  ◌>>◌, assert, ltb, ◌==◌, if◌then◌else◌, length, take, drop,
}
use second_gear.Common.Int.{pos, negsuc}
use second_gear.Time.{Timestamp, Callback}
use second_gear.Channel.{Channel, new_channel, is_writing}
use second_gear.Poller.{
  ChannelPtr, Poller, put, enable_reading, enable_writing, disable_writing, disable_all,
  remove_channel,
}
use second_gear.Buffer
use second_gear.Buffer.{Buffer, ReadResult, read_fd, peeked, readable_bytes, retrieve, append}

pub data StateE : Type 0 where
  connecting : StateE
  connected : StateE
  disconnecting : StateE
  disconnected : StateE

abbrev pub is_connecting : StateE → Bool
is_connecting connecting = true
is_connecting connected = false
is_connecting disconnecting = false
is_connecting disconnected = false

abbrev pub is_connected : StateE → Bool
is_connected connecting = false
is_connected connected = true
is_connected disconnecting = false
is_connected disconnected = false

abbrev pub is_disconnecting : StateE → Bool
is_disconnecting connecting = false
is_disconnecting connected = false
is_disconnecting disconnecting = true
is_disconnecting disconnected = false

-- A queued send holds a reference to the caller's string, not the string.
pub data Effect : Type 0 where
  connection_called : Effect
  message_called : Timestamp → Effect
  close_called : Effect
  wrote : List ℕ → Effect
  shut_write : Effect
  queued_send : Effect
  queued_shutdown : Effect

pub record TcpConnection : Type 0 where
  pub poller : Poller
  pub channel : ChannelPtr
  pub state : StateE
  pub input_buffer : Buffer
  pub output_buffer : Buffer
  pub effects : List Effect

abbrev pub effect : TcpConnection → Effect → TcpConnection
effect c e = record c { effects = c.effects ++ (e ∷ []) }

abbrev pub channel_writing : TcpConnection → Bool
channel_writing c = is_writing (c.poller.store c.channel)

-- `::write`: -1 with `errno`, or how many bytes the kernel took.
pub data WriteResult : Type 0 where
  write_failed : (errno : ℕ) → WriteResult
  took : ℕ → WriteResult

-- The constructor: `read` stands for `handleRead`, and no other callback of the channel is set.
pub new_connection : Poller → ChannelPtr → (sockfd : ℕ) → (read : Callback) → Result TcpConnection
new_connection s channel sockfd read = do
  input ← second_gear.Buffer.create
  output ← second_gear.Buffer.create
  ok (record {
    poller = record s {
      store = put s.store channel (record (new_channel sockfd) { read_callback = some read });
    };
    channel = channel;
    state = connecting;
    input_buffer = input;
    output_buffer = output;
    effects = [];
  })

pub connect_established : TcpConnection → Result TcpConnection
connect_established c = do
  assert (is_connecting c.state)
  reading ← enable_reading c.poller c.channel
  ok (effect (record c { state = connected; poller = reading }) connection_called)

-- The user's callback runs before the channel goes; the connection is disconnected by then, so that
-- neither `send` nor `shutdown` from it does anything.
pub connect_destroyed : TcpConnection → Result TcpConnection
connect_destroyed c = do
  assert (is_connected c.state || is_disconnecting c.state)
  off ← disable_all c.poller c.channel
  removed ← remove_channel off c.channel
  ok (effect (record c { state = disconnected; poller = removed }) connection_called)

pub handle_close : TcpConnection → Result TcpConnection
handle_close c = do
  assert (is_connected c.state || is_disconnecting c.state)
  off ← disable_all c.poller c.channel
  ok (effect (record c { poller = off }) close_called)

-- It only prints the error of the socket.
abbrev pub handle_error : TcpConnection → TcpConnection
handle_error c = c

pub handle_read : TcpConnection → Timestamp → ReadResult → Result TcpConnection
handle_read c receive_time result = do
  r ← read_fd c.input_buffer result
  let read : TcpConnection = record c { input_buffer = r.buffer }
  elim r.n [
    | pos n ↦ elim n [
      | zero ↦ handle_close read
      | suc m ↦ ok (effect read (message_called receive_time))
    ]
    | negsuc n ↦ ok (handle_error read)
  ]

pub shutdown_in_loop : TcpConnection → TcpConnection
shutdown_in_loop c = if channel_writing c then c else effect c shut_write

-- All is written: the channel stops waiting, and a shutdown that was put off is made up for.
pub drained : TcpConnection → Result TcpConnection
drained c = do
  off ← disable_writing c.poller c.channel
  let quiet : TcpConnection = record c { poller = off }
  ok (if is_disconnecting quiet.state then shutdown_in_loop quiet else quiet)

-- What `handleWrite` does once the kernel has taken `n` bytes, `n > 0`.
pub after_write : TcpConnection → ℕ → Result TcpConnection
after_write c n = do
  out ← retrieve c.output_buffer n
  let rest : TcpConnection =
      effect (record c { output_buffer = out }) (wrote (take n (peeked c.output_buffer)))
  (if readable_bytes out == 0 then drained rest else ok rest)

pub handle_write : TcpConnection → WriteResult → Result TcpConnection
handle_write c (write_failed errno) = ok c
handle_write c (took zero) = ok c
handle_write c (took (suc n)) = if channel_writing c then after_write c (suc n) else ok c

-- `nwrote`, after a failure as well.
abbrev pub nwrote : WriteResult → ℕ
nwrote (write_failed errno) = 0
nwrote (took n) = n

abbrev pub try_write : TcpConnection → List ℕ → WriteResult → TcpConnection
try_write c message (write_failed errno) = c
try_write c message (took n) = effect c (wrote (take n message))

-- What is left goes behind the output buffer, and the channel waits until it can write.
pub keep_rest : TcpConnection → List ℕ → Result TcpConnection
keep_rest c rest = do
  out ← append c.output_buffer rest
  let kept : TcpConnection = record c { output_buffer = out }
  (if channel_writing kept
      then ok kept
      else enable_writing kept.poller kept.channel >>= λ on. ok (record kept { poller = on }))

abbrev pub send_rest : TcpConnection → List ℕ → ℕ → Result TcpConnection
send_rest c message n = if ltb n (length message) then keep_rest c (drop n message) else ok c

abbrev pub writes_directly : TcpConnection → Bool
writes_directly c = not (channel_writing c) && (readable_bytes c.output_buffer == 0)

pub send_in_loop : TcpConnection → List ℕ → WriteResult → Result TcpConnection
send_in_loop c message result =
    if writes_directly c
    then send_rest (try_write c message result) message (nwrote result)
    else send_rest c message 0

-- `in_loop` is `loop_->isInLoopThread()`.
pub send : TcpConnection → (in_loop : Bool) → List ℕ → WriteResult → Result TcpConnection
send c in_loop message result =
    if is_connected c.state
    then if in_loop then send_in_loop c message result else ok (effect c queued_send)
    else ok c

pub shutdown : TcpConnection → (in_loop : Bool) → TcpConnection
shutdown c in_loop =
    let closing : TcpConnection = record c { state = disconnecting } in
    if is_connected c.state
    then if in_loop then shutdown_in_loop closing else effect closing queued_shutdown
    else c
