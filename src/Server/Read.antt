-- ===== src/Server/Read.antt =====
-- `handleRead` of a connection of a server.
use second_gear.Common.{
  ℕ, ◌+◌, ◌≤◌, ◌<◌, ◌≡◌, ◌≢◌, refl, sym, ap, ◌∙◌, subst, ◌⊎◌, inl, inr, ◌||◌, [], ◌∷◌, ◌++◌, some,
  ok, err, length_error, All, All-at, get_elem?, length,
}
use second_gear.Time.{Timestamp}
use second_gear.Channel.{Channel}
use second_gear.Poller.{Poller}
use second_gear.Poller.Valid.{put_self, put_ne}
use second_gear.Buffer.{Buffer, ReadResult, got, failed, max_size, writable_bytes, extra_size}
use second_gear.Buffer.Valid
use second_gear.Buffer.Valid.{contents}
use second_gear.TcpConnection as Connection
use second_gear.TcpConnection.{TcpConnection, is_connected, is_disconnecting}
use second_gear.TcpConnection.Open.{IsOpen}
use second_gear.TcpConnection.Close.{CanClose, Closed, bytes_of, Receives, handle_read-Receives}
use second_gear.TcpConnection.Frame.{Keeps, same-Keeps}
use second_gear.TcpServer.{Name, ConnectionPtr}
use second_gear.TcpServer.Removal.{All-erase, erase_keeps, Distinct-at}
use second_gear.Server.{
  Server, MessageCallback, connection, with_connection, remove, read_connection,
}
use second_gear.Server.Valid.{Live, IsValid}
use second_gear.Server.Calls.{stays-IsValid}
use second_gear.Server.Close.{left-apart, remove-IsValid}

-- A connection of the map, by its place there.
abbrev pub Connected : Server → ConnectionPtr → Type 0
Connected s p = (i : ℕ) × (name : Name) × (get_elem? s.tcp.connections i ≡ some (name, p))

-- A call on the connection `p` leaves the others and their places in the map, and lets nobody into it.
pub record Leaves (s u : Server) (p : ConnectionPtr) : Type 0 where
  pub others : (q : ConnectionPtr) → q ≢ p → u.peers q ≡ s.peers q
  pub connected : (q : ConnectionPtr) → q ≢ p → Connected s q → Connected u q
  pub out :
      (q : ConnectionPtr)
      → All (λ e. e.1 ≢ q) s.tcp.connections
      → All (λ e. e.1 ≢ q) u.tcp.connections

-- What has become of a connection that something was read from: it is in the map with its input and what
-- was read, or it is there no more.
abbrev pub Heard :
    MessageCallback → Server → Server → ConnectionPtr → Timestamp → ReadResult → Type 0
Heard message s u p t (failed errno) =
    Connected u p × ((u.peers p).input_buffer ≡ (s.peers p).input_buffer)
Heard message s u p t (got []) = All (λ e. e.1 ≢ p) u.tcp.connections
Heard message s u p t (got (b ∷ bs)) =
    Connected u p
    × ((x : Buffer) × second_gear.Buffer.Valid.IsValid x
        × (contents x ≡ contents (s.peers p).input_buffer ++ (b ∷ bs))
        × ((u.peers p).input_buffer ≡ message p t x))

-- The message callback leaves a valid buffer valid.
abbrev pub KeepsBuffer : MessageCallback → Type 0
KeepsBuffer message =
    (p : ConnectionPtr) (t : Timestamp) (b : Buffer)
    → second_gear.Buffer.Valid.IsValid b
    → second_gear.Buffer.Valid.IsValid (message p t b)

module _ (message : MessageCallback) (keeps : KeepsBuffer message) (print : ℕ → Name)
    (base : Poller) (s : Server) (p : ConnectionPtr) (g : IsValid print base s)
    (c : Connected s p) where
  pub mine : Live s (c.1, p)
  mine = All-at (Live s) s.tcp.connections c.0 g.live c.2

  -- A call that keeps the connection, and the rest as it was.
  pub kept-IsValid :
      (d : TcpConnection)
      → IsOpen d
      → CanClose d
      → Keeps (connection s p) d
      → IsValid print base (with_connection s p d)
  kept-IsValid d opened can k =
      stays-IsValid print base s c.0 c.1 p d g c.2 opened can k.channel
        (k.callback ∙ mine.known.callback)
        (record {
          others = λ x ne.
              let same = k.others x ne in
              (
                ap (λ (y : Channel). y.fd) same,
                ap (λ (y : Channel). y.events) same,
                ap (λ (y : Channel). y.read_callback) same,
              );
          channels = λ f ne. ap (λ m. m f) k.channels;
          entries = k.entries;
        })
        k.channels

  abbrev Reads : Timestamp → ReadResult → Type 0
  Reads t result =
      ((u : Server) × (read_connection message s p t result ≡ ok u)
        × IsValid print base u
        × Leaves s u p
        × Heard message s u p t result)
      ⊎ ((read_connection message s p t result ≡ err length_error)
          × (max_size < (s.peers p).input_buffer.writer_index + length (bytes_of result)))

  put-Leaves : (d : TcpConnection) → Leaves s (with_connection s p d) p
  put-Leaves d = record {
    others = λ q. put_ne s.peers p d q;
    connected = λ q ne k. k;
    out = λ q h. h;
  }

  input-put : (d : TcpConnection) → ((with_connection s p d).peers p).input_buffer ≡ d.input_buffer
  input-put d = ap (λ (x : TcpConnection). x.input_buffer) (put_self s.peers p d)

  -- The connection that has ended goes from the map.
  removed-Leaves :
      (t : Timestamp) (d : TcpConnection)
      → Closed (connection s p) d
      → (u : Server) × (remove (with_connection s p d) p ≡ ok u)
        × IsValid print base u
        × Leaves s u p
        × Heard message s u p t (got [])
  removed-Leaves t d cl =
      let (u, f, valid, peers, pending, left) = remove-IsValid print base s c.0 c.1 p d g c.2 cl in
      (
        u,
        f,
        valid,
        record {
          others = λ q ne. ap (λ m. m q) peers ∙ put_ne s.peers p d q ne;
          connected = λ q ne (i, name, at).
              let (j, found) = erase_keeps s.tcp.connections c.1 i at (λ same. ne (
                Distinct-at s.tcp.connections i c.0 g.tcp.distinct at
                  (c.2 ∙ ap (λ n. some (n, p)) (sym same)))) in
              (j, name, ap (λ es. get_elem? es j) left ∙ found);
          out = λ q h.
              subst (All (λ e. e.1 ≢ q)) (sym left)
                (All-erase (λ e. e.1 ≢ q) s.tcp.connections c.1 h);
        },
        subst (All (λ e. e.1 ≢ p)) (sym left) (left-apart print base s c.0 c.1 p d g c.2 cl),
      )

  received-Reads :
      (receive_time : Timestamp) (result : ReadResult)
      (small : length (bytes_of result) ≤ writable_bytes (s.peers p).input_buffer + extra_size)
      → Receives
          (connection s p)
          receive_time
          result
          (Connection.handle_read (connection s p) receive_time result)
      → Reads receive_time result
  unfolding read_connection
  received-Reads t (failed errno) small h = inl (
    with_connection s p (connection s p),
    rw h refl,
    kept-IsValid (connection s p) mine.opened mine.known.can
        (same-Keeps (connection s p) (connection s p) refl refl),
    put-Leaves (connection s p),
    (c, input-put (connection s p)),
  )
  received-Reads t (got []) small (d, e, cl) =
      let (u, f, valid, leaves, gone) = removed-Leaves t d cl in
      inl (u, rw e f, valid, leaves, gone)
  received-Reads t (got (b ∷ bs)) small (inr (e, over)) = inr (rw e, over)
  received-Reads t (got (b ∷ bs)) small
        (inl (d, e, opened, same, effects, output, state, channel, poller)) =
      let heard : TcpConnection = record d { input_buffer = message p t d.input_buffer } in
      inl (
        with_connection s p heard,
        rw e,
        kept-IsValid heard
            (record {
              registered = opened.registered;
              input = keeps p t d.input_buffer opened.input;
              output = opened.output;
              flushed = opened.flushed;
            })
            (ap (λ x. is_connected x || is_disconnecting x) state ∙ mine.known.can)
            (same-Keeps (connection s p) heard channel poller),
        put-Leaves heard,
        (c, (d.input_buffer, opened.input, same, input-put heard)),
      )

  pub read_connection-Reads :
      (receive_time : Timestamp) (result : ReadResult)
      → length (bytes_of result) ≤ writable_bytes (s.peers p).input_buffer + extra_size
      → Reads receive_time result
  read_connection-Reads t result small =
      received-Reads t result small
        (handle_read-Receives (connection s p) t result mine.opened mine.known.can small)
