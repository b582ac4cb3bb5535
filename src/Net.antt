-- ===== src/Net.antt =====
-- net/SocketsOps.h, net/SocketsOps.cpp, net/Socket.h, net/Socket.cpp, net/InetAddress.h and
-- net/InetAddress.cpp: addresses, and what becomes of the results of socket calls. The byte orders, the
-- text form of an address and the printing of a number are the C library's, an interface; what a
-- system call did is an argument.
pub mod Address
mod Tests
use second_gear.Common.{
  ℕ, ◌+◌, ◌-◌, ◌^◌, ◌≤◌, ◌<◌, ◌≡◌, Bool, true, false, List, [], ◌∷◌, ◌++◌, Option, none, some,
  Result, ok, err, aborted, ◌>>=◌, length, take,
}
use second_gear.Common.Int.{ℤ, pos, negsuc}

-- `struct sockaddr_in`; port and address are in network byte order.
pub record SockAddr : Type 0 where
  pub sin_family : ℕ
  pub sin_port : ℕ
  pub sin_addr : ℕ

-- What `bzero` leaves.
abbrev pub no_address : SockAddr
no_address = record { sin_family = 0; sin_port = 0; sin_addr = 0 }

abbrev pub af_inet : ℕ
af_inet = 2

abbrev pub inaddr_any : ℕ
inaddr_any = 0

-- The C library, with what its manual says: the byte orders undo one another, the text of an address
-- fits into INET_ADDRSTRLEN with its end, and a port prints in five digits at most.
pub record Libc : Type 0 where
  pub htons : ℕ → ℕ
  pub ntohs : ℕ → ℕ
  pub htonl : ℕ → ℕ
  pub ntohl : ℕ → ℕ
  pub htobe64 : ℕ → ℕ
  pub be64toh : ℕ → ℕ
  pub inet_pton : List ℕ → Option ℕ
  pub inet_ntop : ℕ → List ℕ
  pub print_unsigned : ℕ → List ℕ
  pub ntohs-htons : (x : ℕ) → x < 2 ^ 16 → ntohs (htons x) ≡ x
  pub htons-ntohs : (x : ℕ) → x < 2 ^ 16 → htons (ntohs x) ≡ x
  pub ntohs_lt : (x : ℕ) → ntohs x < 2 ^ 16
  pub inet_ntop_short : (a : ℕ) → length (inet_ntop a) ≤ 15
  pub print_unsigned_short : (x : ℕ) → x < 2 ^ 16 → length (print_unsigned x) ≤ 5

module _ (c : Libc) where
  abbrev pub host_to_network64 : ℕ → ℕ
  host_to_network64 host64 = c.htobe64 host64

  abbrev pub host_to_network32 : ℕ → ℕ
  host_to_network32 host32 = c.htonl host32

  abbrev pub host_to_network16 : ℕ → ℕ
  host_to_network16 host16 = c.htons host16

  abbrev pub network_to_host64 : ℕ → ℕ
  network_to_host64 net64 = c.be64toh net64

  abbrev pub network_to_host32 : ℕ → ℕ
  network_to_host32 net32 = c.ntohl net32

  abbrev pub network_to_host16 : ℕ → ℕ
  network_to_host16 net16 = c.ntohs net16

  -- `fromHostPort` into `addr`: it aborts if `inet_pton` does not know the text.
  pub from_host_port : (ip : List ℕ) → (port : ℕ) → SockAddr → Result SockAddr
  from_host_port ip port addr = elim (c.inet_pton ip) [
    | none ↦ err aborted
    | some a ↦
        ok (record addr { sin_family = af_inet; sin_port = host_to_network16 port; sin_addr = a })
  ]

  -- `toHostPort` into `size` bytes, of which `snprintf` uses one for the end; `:` is character 58.
  pub to_host_port : (size : ℕ) → SockAddr → List ℕ
  to_host_port size addr =
      take (size - 1)
        (c.inet_ntop addr.sin_addr ++ (58 ∷ c.print_unsigned (network_to_host16 addr.sin_port)))

  -- `InetAddress(port)`, `InetAddress(ip, port)` and `toHostPort()` of a class that is its `addr_`.
  -- As in the source, the first one goes by the functions from network order to host order.
  pub any_address : (port : ℕ) → SockAddr
  any_address port = record no_address {
    sin_family = af_inet;
    sin_port = network_to_host16 port;
    sin_addr = network_to_host32 inaddr_any;
  }

  pub inet_address : (ip : List ℕ) → (port : ℕ) → Result SockAddr
  inet_address ip port = from_host_port ip port no_address

  pub host_port : SockAddr → List ℕ
  host_port addr = to_host_port 32 addr

-- What a system call returned: 0 or more, or less than 0 with `errno`.
pub data SysResult {ℓ} (T : Type ℓ) : Type ℓ where
  success : T → SysResult T
  failure : (errno : ℕ) → SysResult T

-- `createNonblockingOrDie`, `bindOrDie`, `listenOrDie`, `close` and `getLocalAddr` abort on an error.
abbrev pub or_die {ℓ} : {T : Type ℓ} → SysResult T → Result T
or_die (success v) = ok v
or_die (failure errno) = err aborted

abbrev pub create_nonblocking_or_die : SysResult ℕ → Result ℕ
create_nonblocking_or_die fd = or_die fd

abbrev pub bind_or_die : SysResult (Unit {0}) → Result (Unit {0})
bind_or_die bound = or_die bound

abbrev pub listen_or_die : SysResult (Unit {0}) → Result (Unit {0})
listen_or_die listening = or_die listening

abbrev pub close : SysResult (Unit {0}) → Result (Unit {0})
close closed = or_die closed

abbrev pub get_local_addr : SysResult SockAddr → Result SockAddr
get_local_addr addr = or_die addr

-- SO_ERROR, or why it could not be read.
abbrev pub get_socket_error : SysResult ℕ → ℕ
get_socket_error (success optval) = optval
get_socket_error (failure errno) = errno

-- The errors that `sockets::accept` tells apart.
pub data Errno : Type 0 where
  eagain : Errno
  econnaborted : Errno
  eintr : Errno
  eproto : Errno
  eperm : Errno
  emfile : Errno
  ebadf : Errno
  efault : Errno
  einval : Errno
  enfile : Errno
  enobufs : Errno
  enomem : Errno
  enotsock : Errno
  eopnotsupp : Errno
  unknown : ℕ → Errno

-- What `accept4` did: a descriptor and the peer's address, or -1 and `errno`.
pub data Accepted : Type 0 where
  connection : (connfd : ℕ) → (addr : SockAddr) → Accepted
  refused : Errno → Accepted

-- The first branch of the switch: -1 is returned.
abbrev pub accept_error : Errno → Result (ℤ × SockAddr) → Result (ℤ × SockAddr)
accept_error eagain expected = expected
accept_error econnaborted expected = expected
accept_error eintr expected = expected
accept_error eproto expected = expected
accept_error eperm expected = expected
accept_error emfile expected = expected
accept_error ebadf expected = err aborted
accept_error efault expected = err aborted
accept_error einval expected = err aborted
accept_error enfile expected = err aborted
accept_error enobufs expected = err aborted
accept_error enomem expected = err aborted
accept_error enotsock expected = err aborted
accept_error eopnotsupp expected = err aborted
accept_error (unknown n) expected = err aborted

-- `sockets::accept` into `addr`.
unfoldable pub accept : SockAddr → Accepted → Result (ℤ × SockAddr)
accept addr (connection connfd peer) = ok (pos connfd, peer)
accept addr (refused errno) = accept_error errno (ok (negsuc 0, addr))

-- `Socket::accept` into `peeraddr`, which changes only if there is a connection.
unfoldable pub socket_accept : SockAddr → Accepted → Result (ℤ × SockAddr)
socket_accept peeraddr outcome = accept no_address outcome >>= λ r. elim r.0 [
  | pos fd ↦ ok (pos fd, r.1)
  | negsuc n ↦ ok (negsuc n, peeraddr)
]
