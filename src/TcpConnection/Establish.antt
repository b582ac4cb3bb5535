-- ===== src/TcpConnection/Establish.antt =====
-- The constructor and `connectEstablished`.
use second_gear.Common.{ℕ, ◌≡◌, ◌≢◌, refl, sym, ap, ◌∙◌, [], ◌∷◌, some, none, ok, ◌>>=◌}
use second_gear.Time.{Callback}
use second_gear.Channel.{Channel, new_channel, read_event}
use second_gear.Poller.{Poller, ChannelPtr}
use second_gear.Poller.Valid.{IsValid}
use second_gear.Poller.Fresh.{
  Unmapped, Opens, Opens-KeepsEntries, start, opened, enable_reading-Opens,
}
use second_gear.Poller.Entries.{KeepsEntries}
use second_gear.Buffer.Valid.{fresh, fresh-IsValid, create-eq}
use second_gear.TcpConnection.{
  TcpConnection, connecting, connected, connection_called, new_connection, connect_established,
  effect,
}
use second_gear.TcpConnection.Open.{IsOpen, stream}

module _ (s : Poller) (channel : ChannelPtr) (sockfd : ℕ) (read : Callback) (v : IsValid s)
    (u : Unmapped s channel) (free : s.channels sockfd ≡ none) where
  abbrev made : Channel
  made = record (new_channel sockfd) { read_callback = some read }

  pub made_index : made.index ≡ none
  unfolding new_channel
  made_index = refl

  made_fd : made.fd ≡ sockfd
  unfolding new_channel
  made_fd = refl

  pub made_free : s.channels made.fd ≡ none
  made_free = ap s.channels made_fd ∙ free

  abbrev born : TcpConnection
  born = record {
    poller = start s channel made made_index v u made_free;
    channel = channel;
    state = connecting;
    input_buffer = fresh;
    output_buffer = fresh;
    effects = [];
  }

  new_connection-eq : new_connection s channel sockfd read ≡ ok born
  unfolding new_connection
  new_connection-eq = rw create-eq refl

  abbrev pub established : TcpConnection
  established =
      effect
        (record born { state = connected; poller = opened s channel made made_index v u made_free })
        connection_called

  pub opens : Opens s channel made established.poller
  opens = (enable_reading-Opens s channel made made_index v u made_free).1

  pub established-IsOpen : IsOpen established
  established-IsOpen = record {
    registered = opens.registered;
    input = fresh-IsValid;
    output = fresh-IsValid;
    flushed = λ n. refl;
  }

  -- The constructor and `connectEstablished`, and what they leave as it was.
  pub connect_established-eq :
      (new_connection s channel sockfd read >>= connect_established) ≡ ok established
  unfolding connect_established
  connect_established-eq =
      rw (new_connection-eq, (enable_reading-Opens s channel made made_index v u made_free).0) refl

  pub registered_fd : established.poller.channels sockfd ≡ some channel
  registered_fd = ap established.poller.channels (sym made_fd) ∙ opens.mapped

  pub established_others : (p : ChannelPtr) → p ≢ channel → established.poller.store p ≡ s.store p
  established_others = opens.others

  pub established_entries : KeepsEntries s channel established.poller
  established_entries = Opens-KeepsEntries opens

  pub established_channels : (fd : ℕ) → fd ≢ sockfd → established.poller.channels fd ≡ s.channels fd
  established_channels fd ne = opens.channels fd (λ e. ne (e ∙ made_fd))

  pub established_callback : (established.poller.store channel).read_callback ≡ some read
  established_callback = opens.callback

  -- A connection for a descriptor that a valid poller does not have, with a channel at an address that
  -- its map does not name: the constructor and then connectEstablished fail no assertion. The connection
  -- is open and connected, the user has been told once, nothing has been sent or waits to be, and the
  -- poller has the descriptor and waits for input.
  connect_established-IsOpen :
      (d : TcpConnection) × ((new_connection s channel sockfd read >>= connect_established) ≡ ok d)
      × IsOpen d
      × (d.state ≡ connected)
      × (d.effects ≡ connection_called ∷ [])
      × (stream d ≡ [])
      × (d.poller.channels sockfd ≡ some channel)
      × ((d.poller.store channel).events ≡ read_event)
  connect_established-IsOpen = (
    established, connect_established-eq, established-IsOpen, refl, refl, refl, registered_fd,
    opens.events,
  )
