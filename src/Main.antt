-- ===== src/Main.antt =====
-- main.cpp: the two messages, of lengths that the arguments of the program give, and the callbacks of the
-- server. What the program prints is left out. `atoi` is the C library's, an argument.
pub mod Greeting
pub mod Ready
pub mod Service
mod Tests
use second_gear.Common.{
  ℕ, true, ◌-◌, ◌^◌, ◌%◌, List, [], ◌∷◌, Result, ok, err, length_error, ◌>>=◌, ltb, if◌then◌else◌,
  replicate,
}
use second_gear.Common.Int.{ℤ, pos, negsuc}
use second_gear.Buffer.{max_size, retrieve_all}
use second_gear.TcpConnection.{TcpConnection, WriteResult, is_connected, send}
use second_gear.Time.{Callback}
use second_gear.Poller.{ChannelPtr}
use second_gear.Net.{SysResult}
use second_gear.Loops.{
  ThreadId, LoopPtr, Process, Resources, Acceptor, new_event_loop, new_acceptor, listen,
}
use second_gear.TcpServer.{Name, TcpServer, create, start}
use second_gear.Server.{MessageCallback}

-- `len1` and `len2`, for the arguments with the program's name before them.
pub lengths : (atoi : List ℕ → ℤ) → (argv : List (List ℕ)) → ℤ × ℤ
lengths atoi [] = (pos 10, pos 20)
lengths atoi (program ∷ []) = (pos 10, pos 20)
lengths atoi (program ∷ first ∷ []) = (pos 10, pos 20)
lengths atoi (program ∷ first ∷ second ∷ rest) = (atoi first, atoi second)

-- An `int` as a `size_t`.
pub to_size : ℤ → ℕ
to_size (pos n) = n % 2 ^ 64
to_size (negsuc n) = 2 ^ 64 - 1 - n % 2 ^ 64

-- `resize` of an empty string, and `std::fill`.
pub filled : ℤ → (c : ℕ) → Result (List ℕ)
filled len c =
    if ltb max_size (to_size len) then err length_error else ok (replicate (to_size len) c)

-- `message1` and `message2`: of `A`, character 65, and of `B`, character 66.
pub messages : (atoi : List ℕ → ℤ) → (argv : List (List ℕ)) → Result (List ℕ × List ℕ)
messages atoi argv = do
  let lens = lengths atoi argv
  message1 ← filled lens.0 65
  message2 ← filled lens.1 66
  ok (message1, message2)

-- The first argument is what the two calls of `write` do.
pub on_connection :
    WriteResult × WriteResult → (message1 message2 : List ℕ) → TcpConnection → Result TcpConnection
on_connection writes message1 message2 conn =
    if is_connected conn.state
    then (send conn true message1 writes.0 >>= λ first. send first true message2 writes.1)
    else ok conn

pub on_message : MessageCallback
on_message conn receive_time buf = retrieve_all buf

-- What the system and `new` give to the program.
pub record System : Type 0 where
  pub loop : Resources
  pub socket : SysResult ℕ
  pub bound : SysResult (Unit {0})
  pub listening : SysResult (Unit {0})
  pub accept_channel : ChannelPtr

-- The loop, the server with its acceptor, and `start()`, which listens: the thread is that of the loop.
-- The callbacks stand for the functions `handleRead` of the loop, the timers and the acceptor.
pub set_up :
    Process
    → ThreadId
    → LoopPtr
    → System
    → (woken expired accepted : Callback) → Name
    → Result (TcpServer × Acceptor × Process)
set_up w tid this y woken expired accepted name = do
  looped ← new_event_loop w tid this y.loop woken expired
  made ← new_acceptor looped this y.socket y.bound y.accept_channel accepted
  listened ← listen made.1 tid this made.0 y.listening
  ok (start (create name), listened.0, listened.1)
