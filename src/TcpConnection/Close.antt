-- ===== src/TcpConnection/Close.antt =====
-- `handleRead`, `handleClose` and `connectDestroyed`: input, and the end of a connection.
use second_gear.Common.{
  ℕ, ◌+◌, ◌≤◌, ◌<◌, ◌≡◌, refl, sym, ap, ◌∙◌, ◌≢◌, ◌⊎◌, inl, inr, true, ◌||◌, List, [], ◌∷◌, ◌++◌,
  none, some, Result, ok, err, length_error, length, arith,
}
use second_gear.Time.{Timestamp}
use second_gear.Channel.{Channel, none_event}
use second_gear.Poller.{Poller, ChannelPtr, disable_all, remove_channel}
use second_gear.Poller.Valid
use second_gear.Poller.Events.{Registered, disable_all-Changes}
use second_gear.Poller.Entries.{KeepsEntries, Changes-KeepsEntries}
use second_gear.Poller.Remove.{disable_all-Removes}
use second_gear.Buffer.{ReadResult, got, failed, max_size, writable_bytes, extra_size}
use second_gear.Buffer.Valid.{contents}
use second_gear.Buffer.Read.{read_fd-failed, read_fd-Reads}
use second_gear.TcpConnection.{
  TcpConnection, connection_called, message_called, close_called, disconnected, effect,
  is_connected, is_disconnecting, connect_destroyed, handle_close, handle_read,
}
use second_gear.TcpConnection.Open.{IsOpen}

-- The state in which a connection may close.
abbrev pub CanClose : TcpConnection → Type 0
CanClose c = (is_connected c.state || is_disconnecting c.state) ≡ true

-- What `handleClose` leaves.
pub record Closed (c d : TcpConnection) : Type 0 where
  pub registered : Registered d.poller d.channel
  pub silent : (d.poller.store d.channel).events ≡ none_event
  pub state : d.state ≡ c.state
  pub fd : (d.poller.store d.channel).fd ≡ (c.poller.store c.channel).fd
  pub channels : d.poller.channels ≡ c.poller.channels
  pub channel : d.channel ≡ c.channel
  pub callback : (d.poller.store d.channel).read_callback ≡ (c.poller.store c.channel).read_callback
  pub others : (p : ChannelPtr) → p ≢ c.channel → d.poller.store p ≡ c.poller.store p
  pub entries : KeepsEntries c.poller c.channel d.poller
  pub effects : d.effects ≡ c.effects ++ (close_called ∷ [])

pub handle_close-Closed :
    (c : TcpConnection)
    → Registered c.poller c.channel
    → CanClose c
    → (d : TcpConnection) × (handle_close c ≡ ok d) × Closed c d
unfolding handle_close
handle_close-Closed c g can =
    let (off, e, ch) = disable_all-Changes c.poller c.channel g in
    (
      effect (record c { poller = off }) close_called,
      rw (can, e),
      record {
        registered = ch.registered;
        silent = ap (λ (x : Channel). x.events) ch.now;
        state = refl;
        fd = ap (λ (x : Channel). x.fd) ch.now;
        channels = ch.channels;
        channel = refl;
        callback = ap (λ (x : Channel). x.read_callback) ch.now;
        others = ch.others;
        entries = Changes-KeepsEntries g ch;
        effects = refl;
      },
    )

-- What `connectDestroyed` leaves.
pub record Destroyed (d e : TcpConnection) : Type 0 where
  pub valid : second_gear.Poller.Valid.IsValid e.poller
  pub gone : e.poller.channels (d.poller.store d.channel).fd ≡ none
  pub kept : (f : ℕ) → f ≢ (d.poller.store d.channel).fd → e.poller.channels f ≡ d.poller.channels f
  pub others :
      (p : ChannelPtr)
      → p ≢ d.channel
      → ((e.poller.store p).fd ≡ (d.poller.store p).fd)
        × ((e.poller.store p).events ≡ (d.poller.store p).events)
        × ((e.poller.store p).read_callback ≡ (d.poller.store p).read_callback)
  pub entries : KeepsEntries d.poller d.channel e.poller
  pub state : e.state ≡ disconnected
  pub channel : e.channel ≡ d.channel
  pub fd : (e.poller.store d.channel).fd ≡ (d.poller.store d.channel).fd
  pub silent : (e.poller.store d.channel).events ≡ none_event
  pub place : ℕ
  pub index : (e.poller.store d.channel).index ≡ some place
  pub input : e.input_buffer ≡ d.input_buffer
  pub output : e.output_buffer ≡ d.output_buffer
  pub effects : e.effects ≡ d.effects ++ (connection_called ∷ [])

pub connect_destroyed-Destroyed :
    (d : TcpConnection)
    → Registered d.poller d.channel
    → CanClose d
    → (e : TcpConnection) × (connect_destroyed d ≡ ok e) × Destroyed d e
unfolding connect_destroyed
connect_destroyed-Destroyed d g can =
    let (off, r, e, f, ch, rm) = disable_all-Removes d.poller d.channel g in
    let fd : (off.store d.channel).fd ≡ (d.poller.store d.channel).fd =
      ap (λ (x : Channel). x.fd) ch.now in
    (
      effect (record d { state = disconnected; poller = r }) connection_called,
      rw (can, e, f),
      record {
        valid = rm.valid;
        gone = ap r.channels (sym fd) ∙ rm.gone;
        kept = λ k ne. rm.others k (λ same. ne (same ∙ fd)) ∙ ap (λ m. m k) ch.channels;
        others = λ p ne. (
          rm.fds p ∙ ap (λ (x : Channel). x.fd) (ch.others p ne),
          rm.events p ∙ ap (λ (x : Channel). x.events) (ch.others p ne),
          rm.callbacks p ∙ ap (λ (x : Channel). x.read_callback) (ch.others p ne),
        );
        entries = λ x f pfd ne mapped entry.
            rm.entries x f pfd ne (ap (λ m. m f) ch.channels ∙ mapped)
              (Changes-KeepsEntries g ch x f pfd ne mapped entry);
        state = refl;
        channel = refl;
        fd = rm.fds d.channel ∙ fd;
        silent = rm.events d.channel ∙ ap (λ (x : Channel). x.events) ch.now;
        place = ch.place;
        index = rm.index ∙ ap (λ (x : Channel). x.index) ch.now ∙ ch.index;
        input = refl;
        output = refl;
        effects = refl;
      },
    )

-- A connection that the poller knows, connected or disconnecting: handleClose and then connectDestroyed
-- fail no assertion. Afterwards the server has been told once and then the user once, the connection is
-- disconnected, and the poller is valid and has lost the connection's descriptor and no other.
pub close-destroyed :
    (c : TcpConnection)
    → Registered c.poller c.channel
    → CanClose c
    → (d : TcpConnection) × (e : TcpConnection) × (handle_close c ≡ ok d)
      × (connect_destroyed d ≡ ok e)
      × (e.effects ≡ c.effects ++ (close_called ∷ []) ++ (connection_called ∷ []))
      × (e.state ≡ disconnected)
      × second_gear.Poller.Valid.IsValid e.poller
      × (e.poller.channels (c.poller.store c.channel).fd ≡ none)
      × ((f : ℕ) → f ≢ (c.poller.store c.channel).fd → e.poller.channels f ≡ c.poller.channels f)
close-destroyed c g can =
    let (d, h, cl) = handle_close-Closed c g can in
    let still : CanClose d = ap (λ s. is_connected s || is_disconnecting s) cl.state ∙ can in
    let (e, f, ds) = connect_destroyed-Destroyed d cl.registered still in
    (
      d,
      e,
      h,
      f,
      ds.effects ∙ ap (λ es. es ++ (connection_called ∷ [])) cl.effects,
      ds.state,
      ds.valid,
      ap e.poller.channels (sym cl.fd) ∙ ds.gone,
      λ k ne. ds.kept k (λ same. ne (same ∙ cl.fd)) ∙ ap (λ m. m k) cl.channels,
    )

abbrev pub bytes_of : ReadResult → List ℕ
bytes_of (failed errno) = []
bytes_of (got bs) = bs

-- What `handleRead` does with what `readv` did: the buffer grows, and the user is told; or the connection
-- closes; or nothing happens.
abbrev pub Receives : TcpConnection → Timestamp → ReadResult → Result TcpConnection → Type 0
Receives c t (failed errno) r = r ≡ ok c
Receives c t (got []) r = (d : TcpConnection) × (r ≡ ok d) × Closed c d
Receives c t (got (b ∷ bs)) r =
    ((d : TcpConnection) × (r ≡ ok d)
      × IsOpen d
      × (contents d.input_buffer ≡ contents c.input_buffer ++ (b ∷ bs))
      × (d.effects ≡ c.effects ++ (message_called t ∷ []))
      × (d.output_buffer ≡ c.output_buffer)
      × (d.state ≡ c.state)
      × (d.channel ≡ c.channel)
      × (d.poller ≡ c.poller))
    ⊎ ((r ≡ err length_error) × (max_size < c.input_buffer.writer_index + length (b ∷ bs)))

-- `handleRead` on an open connection that is connected or disconnecting, when `readv` has read no more
-- than its two regions hold: no assertion fails. If it failed, nothing changes; if it read nothing, the
-- connection closes; otherwise either the bytes come behind the input in order, the user is told once,
-- and the connection stays open in its state with its output, its channel and its poller, or it throws `length_error`, and the writer
-- of the input buffer and the number of bytes exceed the maximum of a vector.
pub handle_read-Receives :
    (c : TcpConnection) (t : Timestamp) (result : ReadResult)
    → IsOpen c
    → CanClose c
    → length (bytes_of result) ≤ writable_bytes c.input_buffer + extra_size
    → Receives c t result (handle_read c t result)
unfolding handle_read
handle_read-Receives c t (failed errno) g can h = rw (read_fd-failed c.input_buffer errno) refl
handle_read-Receives c t (got []) g can h = elim (read_fd-Reads c.input_buffer [] g.input h) [
  | inr (e, over) ↦ absurd (omega arith)
  | inl (s, e, valid, same, low) ↦
      let (d, f, cl) = handle_close-Closed (record c { input_buffer = s }) g.registered can in
      (
        d,
        rw e f,
        record {
          registered = cl.registered;
          silent = cl.silent;
          state = cl.state;
          fd = cl.fd;
          channels = cl.channels;
          channel = cl.channel;
          callback = cl.callback;
          others = cl.others;
          entries = cl.entries;
          effects = cl.effects;
        },
      )
]
handle_read-Receives c t (got (b ∷ bs)) g can h =
    elim (read_fd-Reads c.input_buffer (b ∷ bs) g.input h) [
      | inr (e, over) ↦ inr (rw e, over)
      | inl (s, e, valid, same, low) ↦ inl (
        effect (record c { input_buffer = s }) (message_called t),
        rw e,
        record { registered = g.registered; input = valid; output = g.output; flushed = g.flushed },
        same,
        refl,
        refl,
        refl,
        refl,
        refl,
      )
    ]
