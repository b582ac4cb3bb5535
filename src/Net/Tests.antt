-- ===== src/Net/Tests.antt =====
-- A C library for little-endian words of 16 bits that knows the address 0 only, and the theorem there.
use second_gear.Common.{
  ℕ, ◌+◌, ◌*◌, ◌/◌, ◌%◌, ◌^◌, ◌≤◌, ◌<◌, ◌≡◌, refl, arith, List, [], ◌∷◌, ◌++◌, Option, none, some,
  ok, length,
}
use second_gear.Net.{SockAddr, Libc, inet_address, host_port}
use second_gear.Net.Address.{inet_address-host_port}

-- The two bytes of a word change places.
abbrev swap16 : ℕ → ℕ
swap16 x = x % 256 * 256 + x / 256 % 256

swap16-swap16 : (x : ℕ) → x < 2 ^ 16 → swap16 (swap16 x) ≡ x
swap16-swap16 x h = omega arith

swap16_lt : (x : ℕ) → swap16 x < 2 ^ 16
swap16_lt x = omega arith

-- "0.0.0.0"
abbrev zeros : List ℕ
zeros = 48 ∷ 46 ∷ 48 ∷ 46 ∷ 48 ∷ 46 ∷ 48 ∷ []

abbrev read_zeros : List ℕ → Option ℕ
read_zeros [] = none
read_zeros (c ∷ cs) = some 0

zeros_short : (a : ℕ) → length zeros ≤ 15
zeros_short a = omega arith

-- One digit, which is enough for the ports below ten.
one_digit_short : (x : ℕ) → x < 2 ^ 16 → length ((48 + x % 10) ∷ []) ≤ 5
one_digit_short x h = omega arith

abbrev small_libc : Libc
small_libc = record {
  htons = swap16;
  ntohs = swap16;
  htonl = λ x. x;
  ntohl = λ x. x;
  htobe64 = λ x. x;
  be64toh = λ x. x;
  inet_pton = read_zeros;
  inet_ntop = λ a. zeros;
  print_unsigned = λ x. (48 + x % 10) ∷ [];
  ntohs-htons = swap16-swap16;
  htons-ntohs = swap16-swap16;
  ntohs_lt = swap16_lt;
  inet_ntop_short = zeros_short;
  print_unsigned_short = one_digit_short;
}

inet_address-host_port_example :
    (addr : SockAddr) × (inet_address small_libc zeros 7 ≡ ok addr)
    × (host_port small_libc addr ≡ zeros ++ (58 ∷ small_libc.print_unsigned 7))
inet_address-host_port_example = inet_address-host_port small_libc zeros 7 0 (omega arith) refl refl
