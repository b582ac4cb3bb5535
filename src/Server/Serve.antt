-- ===== src/Server/Serve.antt =====
-- Everything that the thread of the loop asks of a server with connections, in any order.
use second_gear.Common.{
  ℕ, ◌+◌, ◌≤◌, ◌<◌, ◌≡◌, refl, sym, ap, ◌∙◌, subst, ◌⊎◌, inl, inr, true, ◌||◌, List, ◌∷◌, none, ok,
  err, length_error, length, Result,
}
use second_gear.Time.{Timestamp}
use second_gear.Poller.{ChannelPtr, Poller}
use second_gear.Buffer.{ReadResult, max_size, writable_bytes, extra_size}
use second_gear.TcpConnection.{WriteResult, is_connected, is_disconnecting, shutdown}
use second_gear.TcpConnection.Close.{bytes_of}
use second_gear.Poller.Fresh.{Unmapped}
use second_gear.TcpConnection.Frame.{send-Stays, shutdown-Shuts}
use second_gear.TcpServer.{Name, ConnectionPtr}
use second_gear.Server.{
  Server, MessageCallback, connection, with_connection, accept_connection, read_connection, send_on,
  shutdown_on, destroy_connection,
}
use second_gear.Server.Valid.{IsValid}
use second_gear.Server.Read.{KeepsBuffer, Connected, mine, kept-IsValid, read_connection-Reads}
use second_gear.Server.Accept.{Fresh, accept_connection-IsValid}
use second_gear.Server.Close.{destroy_connection-IsValid}

-- What may come next: a connection, with an address, a channel and a descriptor that are not in use;
-- input on a connection, or its end; a call of the user; the first of the functors that destroy.
pub data Request (s : Server) : Type 0 where
  accepts :
      (p : ConnectionPtr) (sockfd : ℕ) (channel : ChannelPtr)
      → Fresh s p
      → Unmapped s.poller channel
      → s.poller.channels sockfd ≡ none
      → Request s
  reads :
      (p : ConnectionPtr) (receive_time : Timestamp) (result : ReadResult)
      → Connected s p
      → length (bytes_of result) ≤ writable_bytes (s.peers p).input_buffer + extra_size
      → Request s
  sends :
      (p : ConnectionPtr) (text : List ℕ) (result : WriteResult)
      → Connected s p
      → length text ≤ max_size
      → Request s
  shuts : (p : ConnectionPtr) → Connected s p → Request s
  destroys : (p : ConnectionPtr) (others : List ConnectionPtr) → s.pending ≡ p ∷ others → Request s

abbrev pub serve : MessageCallback → (print : ℕ → Name) → (s : Server) → Request s → Result Server
serve message print s (accepts p sockfd channel fresh unmapped free) =
    accept_connection print s p sockfd channel
serve message print s (reads p receive_time result known small) =
    read_connection message s p receive_time result
serve message print s (sends p text result known small) = send_on s p text result
serve message print s (shuts p known) = ok (shutdown_on s p)
serve message print s (destroys p others first) = destroy_connection s p others

-- The buffer would have to grow beyond the maximum of a vector.
abbrev pub Overflows : (s : Server) → Request s → Type 0
Overflows s (accepts p sockfd channel fresh unmapped free) = ⊥
Overflows s (reads p receive_time result known small) =
    max_size < (s.peers p).input_buffer.writer_index + length (bytes_of result)
Overflows s (sends p text result known small) =
    max_size < (s.peers p).output_buffer.writer_index + length text
Overflows s (shuts p known) = ⊥
Overflows s (destroys p others first) = ⊥

abbrev pub Serves :
    MessageCallback → (print : ℕ → Name) → (base : Poller) → (s : Server) → Request s → Type 0
Serves message print base s r =
    ((t : Server) × (serve message print s r ≡ ok t) × IsValid print base t)
    ⊎ ((serve message print s r ≡ err length_error) × Overflows s r)

module _ (message : MessageCallback) (keeps : KeepsBuffer message) (print : ℕ → Name)
    (base : Poller) (s : Server) (p : ConnectionPtr) (g : IsValid print base s)
    (c : Connected s p) where
  reads-Serves :
      (receive_time : Timestamp) (result : ReadResult)
      (small : length (bytes_of result) ≤ writable_bytes (s.peers p).input_buffer + extra_size)
      → Serves message print base s (reads p receive_time result c small)
  reads-Serves t result small =
      elim (read_connection-Reads message keeps print base s p g c t result small) [
        | inl (u, e, valid, after, heard) ↦ inl (u, e, valid)
        | inr over ↦ inr over
      ]

  sends-Serves :
      (text : List ℕ) (result : WriteResult) (small : length text ≤ max_size)
      → Serves message print base s (sends p text result c small)
  unfolding send_on
  sends-Serves text result small =
      elim (send-Stays (connection s p) text result (mine message keeps print base s p g c).opened
        small) [
          | inr (e, over) ↦ inr (rw e, over)
          | inl (d, e, low, k, opened, state) ↦ inl (
            with_connection s p d,
            rw e,
            kept-IsValid message keeps print base s p g c d opened
                (ap (λ x. is_connected x || is_disconnecting x) state
                  ∙ (mine message keeps print base s p g c).known.can)
                k,
          )
        ]

  shuts-Serves : Serves message print base s (shuts p c)
  shuts-Serves =
      let (k, opened, can) =
        shutdown-Shuts (connection s p) (mine message keeps print base s p g c).opened
          (mine message keeps print base s p g c).known.can in
      inl (
        shutdown_on s p,
        refl,
        kept-IsValid message keeps print base s p g c (shutdown (connection s p) true) opened can k,
      )

-- Servers that come from `s` by requests.
pub data Reach (message : MessageCallback) (print : ℕ → Name) (s : Server) : Server → Type 0 where
  done : Reach message print s s
  next :
      {t u : Server}
      → Reach message print s t
      → (r : Request t) → serve message print t r ≡ ok u
      → Reach message print s u

module _ (message : MessageCallback) (keeps : KeepsBuffer message) (print : ℕ → Name)
    (print-injective : (i j : ℕ) → print i ≡ print j → i ≡ j) (base : Poller) where
  pub serve-Serves :
      (s : Server) → IsValid print base s → (r : Request s) → Serves message print base s r
  serve-Serves s g (accepts p sockfd channel fresh unmapped free) =
      let (t, e, valid, listed, mapped) =
        accept_connection-IsValid print print-injective base s p sockfd channel g fresh unmapped
          free in
      inl (t, e, valid)
  serve-Serves s g (reads p receive_time result known small) =
      reads-Serves message keeps print base s p g known receive_time result small
  serve-Serves s g (sends p text result known small) =
      sends-Serves message keeps print base s p g known text result small
  serve-Serves s g (shuts p known) = shuts-Serves message keeps print base s p g known
  serve-Serves s g (destroys p others first) =
      let (t, e, valid, tcp, pending, peers) =
        destroy_connection-IsValid print base s p others g first in
      inl (t, e, valid)

  served-IsValid :
      {s t : Server} (r : Request s)
      → serve message print s r ≡ ok t
      → Serves message print base s r
      → IsValid print base t
  served-IsValid r h (inl (u, e, valid)) = subst (IsValid print base) (same_ok (sym e ∙ h)) valid
    where
      same_ok : {x y : Server} → ok x ≡ ok y → x ≡ y
      same_ok k = cc
  served-IsValid r h (inr (e, over)) = cc

  pub reach-IsValid :
      {s t : Server} → IsValid print base s → Reach message print s t → IsValid print base t
  reach-IsValid g done = g
  reach-IsValid g (next steps r e) =
      let h = reach-IsValid g steps in served-IsValid r e (serve-Serves _ h r)

  -- A server that is valid over a poller `base`, where numbers print apart and the user's message
  -- callback, which runs on input, leaves a valid input buffer valid and calls back only by later
  -- requests, after any sequence of requests, each with an address, a channel and a descriptor that are
  -- not in use if it is a new connection, with no more bytes than there is room for if it is input, and
  -- with a message up to the maximum of a vector if it is to be sent: the next such request fails no
  -- assertion, neither that of removeConnection nor those of the connections and the poller. Either the server is valid
  -- again: names are kept apart; every connection of the map is open, is in a state in which it may
  -- close, and has a channel that the poller knows and that calls it back; every one that is to be
  -- destroyed is out of the map, once, and can be destroyed; beyond what `base` has, the poller
  -- has only the channels of these connections; and what `base` has, the poller still has, with its
  -- events, its callback and its entry in the table, for a channel of no connection. Or a read or a send throws
  -- `length_error`, and the buffer would exceed the maximum of a vector.
  pub reach-Serves :
      {s t : Server}
      → IsValid print base s
      → Reach message print s t
      → (r : Request t) → Serves message print base t r
  reach-Serves g steps r = serve-Serves _ (reach-IsValid g steps) r
