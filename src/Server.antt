-- ===== src/Server.antt =====
-- A server with its connections, in the thread of one loop: TcpServer.cpp over TcpConnection.cpp and
-- Poller.cpp. The connections share the poller. The callbacks that the constructors and `newConnection`
-- set are followed here: a channel's `read_callback` names its connection, as the `this` that the source
-- captures does; a connection's close callback is `removeConnection`; and that hands `connectDestroyed`
-- to the loop, where `pending` has those that have not run.
pub mod Valid
pub mod Apart
pub mod Calls
pub mod Accept
pub mod Listen
pub mod Close
pub mod Read
pub mod Serve
pub mod Inputs
pub mod Turn
mod Tests
use second_gear.Common.{
  ℕ, suc, ◌≡◌, Bool, true, false, List, [], ◌∷◌, ◌++◌, Result, ok, ◌>>=◌, if◌then◌else◌,
}
use second_gear.Time.{Timestamp}
use second_gear.Poller.{ChannelPtr, Poller, put}
use second_gear.Buffer.{Buffer, ReadResult, got, failed}
use second_gear.TcpConnection as Connection
use second_gear.TcpConnection.{TcpConnection, WriteResult, connect_established, connect_destroyed}
use second_gear.Common.Int.{pos, negsuc}
use second_gear.Net.{SockAddr, SysResult, Accepted, no_address, socket_accept, get_local_addr}
use second_gear.TcpServer as Tcp
use second_gear.TcpServer.{TcpServer, Name, ConnectionPtr, conn_name, remove_connection}

-- `names` has the name that each connection was made with. The poller of all is `poller`; the one that
-- an element of `peers` has is never read.
pub record Server : Type 0 where
  pub tcp : TcpServer
  pub poller : Poller
  pub peers : ConnectionPtr → TcpConnection
  pub names : ConnectionPtr → Name
  pub pending : List ConnectionPtr

abbrev pub connection : Server → ConnectionPtr → TcpConnection
connection s p = record (s.peers p) { poller = s.poller }

abbrev pub with_connection : Server → ConnectionPtr → TcpConnection → Server
with_connection s p c = record s { poller = c.poller; peers = put s.peers p c }

-- `newConnection` with the constructor and `connectEstablished`, where `new` returned `p` and `channel`.
unfoldable pub accept_connection :
    (print : ℕ → Name)
    → Server
    → (p : ConnectionPtr) → (sockfd : ℕ) → (channel : ChannelPtr) → Result Server
accept_connection print s p sockfd channel =
    Connection.new_connection s.poller channel sockfd p >>= connect_established >>= λ c.
    ok (record (with_connection s p c) {
      tcp = Tcp.new_connection print s.tcp p;
      names = put s.names p (conn_name print s.tcp.name s.tcp.next_conn_id);
    })

-- The acceptor's `handleRead`, whose callback is `newConnection`: `outcome` is what `accept4` did, and
-- `local` what `getsockname` did. A descriptor below 0 is no connection. The address of the peer before
-- the call, `InetAddress(0)` in the source, is overwritten or not read.
unfoldable pub handle_accept :
    (print : ℕ → Name)
    → Server
    → (outcome : Accepted) → (local : SysResult SockAddr) → ConnectionPtr
    → ChannelPtr
    → Result Server
handle_accept print s outcome local p channel = do
  accepted ← socket_accept no_address outcome
  elim accepted.0 [
    | negsuc n ↦ ok s
    | pos sockfd ↦ get_local_addr local >>= λ local_addr. accept_connection print s p sockfd channel
  ]

-- `removeConnection` of a connection, and the functor that it queues.
unfoldable pub remove : Server → ConnectionPtr → Result Server
remove s p = remove_connection s.tcp p (s.names p) >>= λ t.
    ok (record s { tcp = t; pending = s.pending ++ (p ∷ []) })

-- Whether `handleRead` ends in `handleClose`, and so in the close callback.
abbrev pub closes : ReadResult → Bool
closes (failed errno) = false
closes (got []) = true
closes (got (b ∷ bs)) = false

-- What the message callback of the user does with the input buffer that it is given. What else it calls
-- is a call of the loop's thread after it.
abbrev pub MessageCallback : Type 0
MessageCallback = ConnectionPtr → Timestamp → Buffer → Buffer

-- The message callback runs when `readFd` has read something.
abbrev deliver :
    MessageCallback → ConnectionPtr → Timestamp → ReadResult → TcpConnection → TcpConnection
deliver message p receive_time (failed errno) c = c
deliver message p receive_time (got []) c = c
deliver message p receive_time (got (b ∷ bs)) c = record c {
  input_buffer = message p receive_time c.input_buffer;
}

unfoldable pub read_connection :
    MessageCallback → Server → ConnectionPtr → Timestamp → ReadResult → Result Server
read_connection message s p receive_time result =
    Connection.handle_read (connection s p) receive_time result >>= λ c.
    let heard = deliver message p receive_time result c in
    if closes result then remove (with_connection s p heard) p else ok (with_connection s p heard)

-- Calls of the user, in a callback that the loop's thread runs.
unfoldable pub send_on : Server → ConnectionPtr → List ℕ → WriteResult → Result Server
send_on s p message result =
    Connection.send (connection s p) true message result >>= λ c. ok (with_connection s p c)

abbrev pub shutdown_on : Server → ConnectionPtr → Server
shutdown_on s p = with_connection s p (Connection.shutdown (connection s p) true)

-- The functor that destroys `p`, when `others` are those behind it.
unfoldable pub destroy_connection :
    Server → ConnectionPtr → (others : List ConnectionPtr) → Result Server
destroy_connection s p others = connect_destroyed (connection s p) >>= λ c.
    ok (record (with_connection s p c) { pending = others })

-- What `readv` did for a connection whose channel is active.
pub record Input : Type 0 where
  pub conn : ConnectionPtr
  pub receive_time : Timestamp
  pub result : ReadResult

-- The active channels of a turn of the loop, one after the other.
unfoldable pub read_each : MessageCallback → Server → List Input → Result Server
read_each message s [] = ok s
read_each message s (i ∷ is) =
    read_connection message s i.conn i.receive_time i.result >>= λ u. read_each message u is

-- The functors that a turn of the loop has swapped out, one after the other.
unfoldable pub destroy_each : Server → List ConnectionPtr → Result Server
destroy_each s [] = ok s
destroy_each s (p ∷ others) = destroy_connection s p others >>= λ u. destroy_each u others

-- A turn of the loop in which only connections are active, and no other thread calls.
unfoldable pub serve_turn : MessageCallback → Server → List Input → Result Server
serve_turn message s inputs = read_each message s inputs >>= λ u. destroy_each u u.pending
