-- ===== src/Server/Turn.antt =====
-- A turn of the loop over the connections of a server: all that is read, and then the functors.
use second_gear.Common.{ℕ, ◌≡◌, ◌≢◌, ◌⊎◌, List, [], Result, ok, err, length_error, All}
use second_gear.Poller.{Poller}
use second_gear.TcpServer.{Name, ConnectionPtr, TcpServer}
use second_gear.Server.{Server, MessageCallback, Input, read_each, destroy_each}
use second_gear.Server.Valid.{IsValid}
use second_gear.Server.Read.{KeepsBuffer}
use second_gear.Server.Inputs.{OverflowsIn, Same, HeardAll, Quiet}

module _ (message : MessageCallback) (keeps : KeepsBuffer message) (print : ℕ → Name)
    (base : Poller) where
  -- What a turn does with its inputs.
  abbrev pub Turns : Server → List Input → Result Server → Type 0
  Turns s is r =
      ((t : Server) × (r ≡ ok t)
        × IsValid print base t
        × (t.pending ≡ [])
        × HeardAll message s t is
        × All (λ e. Quiet s t is e.1) s.tcp.connections)
      ⊎ ((r ≡ err length_error) × OverflowsIn s is)

  abbrev ReadsEach : Server → List Input → Type 0
  ReadsEach s is =
      ((t : Server) × (read_each message s is ≡ ok t)
        × IsValid print base t
        × HeardAll message s t is
        × ((q : ConnectionPtr) → All (λ j. j.conn ≢ q) is → Same s t q))
      ⊎ ((read_each message s is ≡ err length_error) × OverflowsIn s is)

  abbrev DestroysEach : Server → List ConnectionPtr → Type 0
  DestroysEach s ps =
      (t : Server) × (destroy_each s ps ≡ ok t)
      × IsValid print base t
      × (t.pending ≡ [])
      × (t.tcp ≡ s.tcp)
      × ((q : ConnectionPtr) → All (λ p. q ≢ p) ps → t.peers q ≡ s.peers q)
