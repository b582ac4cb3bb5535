-- ===== src/Net/Address.antt =====
-- An address and its text.
use second_gear.Common.{
  ℕ, ◌^◌, ◌<◌, ◌≡◌, refl, ap₂, ◌∙◌, List, ◌∷◌, ◌++◌, some, ok, take_all, length-append, arith,
}
use second_gear.Net.{SockAddr, Libc, af_inet, from_host_port, to_host_port, inet_address, host_port}

module _ (c : Libc) where
  -- The text form fits into the buffer, so that nothing is cut off.
  host_port-eq :
      (addr : SockAddr)
      → host_port c addr
        ≡ c.inet_ntop addr.sin_addr ++ (58 ∷ c.print_unsigned (c.ntohs addr.sin_port))
  unfolding host_port to_host_port
  host_port-eq addr = take_all 31 _ (
      omega (
        arith,
        length-append (c.inet_ntop addr.sin_addr) (58 ∷ c.print_unsigned (c.ntohs addr.sin_port)),
        c.inet_ntop_short addr.sin_addr,
        c.print_unsigned_short (c.ntohs addr.sin_port) (c.ntohs_lt addr.sin_port),
      ))

  -- An address that is made from a text that the library reads, and prints in the same way, and from a
  -- port of 16 bits: its text is that text, a colon and the port, and nothing is cut off.
  pub inet_address-host_port :
      (ip : List ℕ) (port a : ℕ)
      → port < 2 ^ 16
      → c.inet_pton ip ≡ some a
      → c.inet_ntop a ≡ ip
      → (addr : SockAddr) × (inet_address c ip port ≡ ok addr)
        × (host_port c addr ≡ ip ++ (58 ∷ c.print_unsigned port))
  unfolding inet_address from_host_port
  inet_address-host_port ip port a small known text = (
    record { sin_family = af_inet; sin_port = c.htons port; sin_addr = a },
    rw (known, from_host_port) refl,
    host_port-eq _ ∙ ap₂ (λ h p. h ++ (58 ∷ c.print_unsigned p)) text (c.ntohs-htons port small),
  )
