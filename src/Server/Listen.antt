-- ===== src/Server/Listen.antt =====
-- The acceptor's `handleRead` of a server with its connections, for everything that `accept4` may do.
use second_gear.Common.{ℕ, ◌≡◌, refl, ◌∷◌, some, none, Result, ok, err, aborted}
use second_gear.Poller.{Poller, ChannelPtr}
use second_gear.Poller.Fresh.{Unmapped}
use second_gear.Net.{
  SockAddr, SysResult, success, failure, Accepted, connection, refused, Errno, eagain, econnaborted,
  eintr, eproto, eperm, emfile, ebadf, efault, einval, enfile, enobufs, enomem, enotsock,
  eopnotsupp, unknown, accept, socket_accept,
}
use second_gear.TcpServer.{Name, ConnectionPtr, conn_name}
use second_gear.Server.{Server, handle_accept}
use second_gear.Server.Valid.{IsValid}
use second_gear.Server.Accept.{Fresh, accept_connection-IsValid}

-- The errors after which the server goes on.
abbrev pub GoesOn : Errno → Result Server → Server → Type 0
GoesOn eagain r s = r ≡ ok s
GoesOn econnaborted r s = r ≡ ok s
GoesOn eintr r s = r ≡ ok s
GoesOn eproto r s = r ≡ ok s
GoesOn eperm r s = r ≡ ok s
GoesOn emfile r s = r ≡ ok s
GoesOn ebadf r s = r ≡ err aborted
GoesOn efault r s = r ≡ err aborted
GoesOn einval r s = r ≡ err aborted
GoesOn enfile r s = r ≡ err aborted
GoesOn enobufs r s = r ≡ err aborted
GoesOn enomem r s = r ≡ err aborted
GoesOn enotsock r s = r ≡ err aborted
GoesOn eopnotsupp r s = r ≡ err aborted
GoesOn (unknown n) r s = r ≡ err aborted

-- What becomes of the server.
abbrev pub Accepts :
    (print : ℕ → Name)
    → Poller
    → Server
    → Accepted
    → SysResult SockAddr
    → ConnectionPtr
    → ChannelPtr
    → Result Server
    → Type 0
Accepts print base s (connection sockfd peer) (success addr) p channel r =
    (t : Server) × (r ≡ ok t)
    × IsValid print base t
    × (t.tcp.connections ≡ (conn_name print s.tcp.name s.tcp.next_conn_id, p) ∷ s.tcp.connections)
    × (t.poller.channels sockfd ≡ some channel)
Accepts print base s (connection sockfd peer) (failure errno) p channel r = r ≡ err aborted
Accepts print base s (refused errno) local p channel r = GoesOn errno r s

-- The descriptor is not in use.
abbrev pub IsFree : Server → Accepted → Type 0
IsFree s (connection sockfd peer) = s.poller.channels sockfd ≡ none
IsFree s (refused errno) = Unit

-- The acceptor's handleRead of a valid server, where numbers print apart, with an address, a channel and,
-- if there is a connection, a descriptor that are not in use: no assertion fails. If there is a connection
-- and its own address is known, it is in the map before the others under the next name, the poller has its
-- descriptor with the channel, and the server is valid; if its address is not known, the program aborts. If
-- there is none, the server is as it was if the error is one of the passing ones, among them that there are
-- no descriptors left for the process, and for every other error the program aborts.
pub handle_accept-Accepts :
    (print : ℕ → Name)
    → ((i j : ℕ) → print i ≡ print j → i ≡ j)
    → (base : Poller) (s : Server) (outcome : Accepted) (local : SysResult SockAddr)
      (p : ConnectionPtr) (channel : ChannelPtr)
    → IsValid print base s
    → Fresh s p
    → Unmapped s.poller channel
    → IsFree s outcome
    → Accepts print base s outcome local p channel (handle_accept print s outcome local p channel)
unfolding handle_accept socket_accept accept
handle_accept-Accepts print inj base s (connection sockfd peer) (success addr) p channel g fresh
      unmapped free =
    accept_connection-IsValid print inj base s p sockfd channel g fresh unmapped free
handle_accept-Accepts print inj base s (connection sockfd peer) (failure errno) p channel g fresh
      unmapped free =
    refl
handle_accept-Accepts print inj base s (refused errno) local p channel g fresh unmapped free =
    goes_on errno
  where
    goes_on : (e : Errno) → GoesOn e (handle_accept print s (refused e) local p channel) s
    goes_on eagain = refl
    goes_on econnaborted = refl
    goes_on eintr = refl
    goes_on eproto = refl
    goes_on eperm = refl
    goes_on emfile = refl
    goes_on ebadf = refl
    goes_on efault = refl
    goes_on einval = refl
    goes_on enfile = refl
    goes_on enobufs = refl
    goes_on enomem = refl
    goes_on enotsock = refl
    goes_on eopnotsupp = refl
    goes_on (unknown n) = refl
