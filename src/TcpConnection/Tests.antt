-- ===== src/TcpConnection/Tests.antt =====
-- The theorems of connections at a new one, and at one that has three bytes left and is shutting down.
use second_gear.Common.{
  ℕ, ◌+◌, ◌<◌, ◌≡◌, ◌≢◌, ◌⊎◌, inl, refl, arith, length, drop, replicate, true, List, [], ◌∷◌, ◌++◌,
  none, ok, err, length_error, ◌>>=◌,
}
use second_gear.Common.Int.{pos}
use second_gear.Channel.{Channel, new_channel, handle_event, write_event, writing_enabled}
use second_gear.Poller.{ChannelPtr, Poller, create, add_new}
use second_gear.Poller.Valid
use second_gear.Poller.Valid.{create-IsValid}
use second_gear.Poller.Update.{update_channel-new}
use second_gear.Buffer.{Buffer, got, max_size}
use second_gear.Buffer.Valid.{contents, fresh, fresh-IsValid}
use second_gear.TcpConnection.{
  TcpConnection, disconnecting, disconnected, connection_called, close_called, took, write_failed,
  connect_destroyed, handle_close, handle_read, handle_write, send_in_loop, shutdown,
  new_connection, connect_established,
}
use second_gear.TcpConnection.Open.{IsOpen}
use second_gear.TcpConnection.Establish.{established, established-IsOpen}
use second_gear.TcpConnection.Send.{Sends, send_in_loop-Sends, send_in_loop-deaf}
use second_gear.TcpConnection.Flush.{handle_write-Writes}
use second_gear.TcpConnection.Flush.Once.{Handles, handle_write-Handles}
use second_gear.TcpConnection.Flush.Drain.{Drained, write_each, write_each-Drained}
use second_gear.TcpConnection.Mute.{send_in_loop-Muted}
use second_gear.TcpConnection.Order.{Sound, steps-Sound, next, done, shuts, flushes}
use second_gear.TcpConnection.Late.{SendsLate, taken, connect_destroyed-SendsLate}
use second_gear.TcpConnection.Close.{Receives, handle_read-Receives, close-destroyed}

abbrev store : ChannelPtr → Channel
store p = new_channel 5

-- Socket 7 with its channel at address 3, and callback 11 to read.
abbrev connection : TcpConnection
connection = established (create store) 3 7 11 (create-IsValid store) (λ fd h. cc) refl

connection-IsOpen : IsOpen connection
connection-IsOpen =
    established-IsOpen (create store) 3 7 11 (create-IsValid store) (λ fd h. cc) refl

abbrev message : List ℕ
message = 104 ∷ 105 ∷ 33 ∷ []

send_in_loop-Sends_example : Sends connection message (send_in_loop connection message (took 2))
send_in_loop-Sends_example =
    send_in_loop-Sends connection message (took 2) connection-IsOpen (omega arith)

-- Three bytes wait and the connection is shutting down.
abbrev waiting_store : ChannelPtr → Channel
waiting_store p = writing_enabled (new_channel 5)

abbrev three_bytes : Buffer
three_bytes = record { bytes = replicate 8 0 ++ message; reader_index = 8; writer_index = 11 }

abbrev waiting : TcpConnection
waiting = record {
  poller = add_new (create waiting_store) 3;
  channel = 3;
  state = disconnecting;
  input_buffer = fresh;
  output_buffer = three_bytes;
  effects = [];
}

waiting-IsOpen : IsOpen waiting
unfolding new_channel
waiting-IsOpen = record {
  registered = record {
    valid =
        (update_channel-new (create waiting_store) 3 (create-IsValid waiting_store) refl refl).1;
    known = refl;
  };
  input = fresh-IsValid;
  output = omega arith;
  flushed = λ n. cc;
}

handle_write-Handles_example : Handles waiting (took 3) (handle_write waiting (took 3))
handle_write-Handles_example = handle_write-Handles waiting (took 3) waiting-IsOpen (omega arith)

waiting-Sound : Sound waiting
waiting-Sound = record { opened = waiting-IsOpen; once = tt; ended = inl tt }

abbrev flushed : TcpConnection
flushed = (handle_write-Writes waiting (took 3) waiting-IsOpen (omega arith)).0

steps-Sound_example : Sound (shutdown flushed true)
steps-Sound_example = steps-Sound waiting-Sound (
    next
      (flushes (took 3) (omega arith)
        (handle_write-Writes waiting (took 3) waiting-IsOpen (omega arith)).1)
      (next (shuts refl) done))

handle_read-Receives_example :
    Receives connection (pos 40) (got message) (handle_read connection (pos 40) (got message))
handle_read-Receives_example =
    handle_read-Receives connection (pos 40) (got message) connection-IsOpen refl (omega arith)

close-destroyed_example :
    (d : TcpConnection) × (e : TcpConnection) × (handle_close connection ≡ ok d)
    × (connect_destroyed d ≡ ok e)
    × (e.effects ≡ connection.effects ++ (close_called ∷ []) ++ (connection_called ∷ []))
    × (e.state ≡ disconnected)
    × second_gear.Poller.Valid.IsValid e.poller
    × (e.poller.channels (connection.poller.store connection.channel).fd ≡ none)
    × ((f : ℕ)
        → f ≢ (connection.poller.store connection.channel).fd
        → e.poller.channels f ≡ connection.poller.channels f)
close-destroyed_example = close-destroyed connection connection-IsOpen.registered refl

send_in_loop-deaf_example :
    ((d : TcpConnection) × (send_in_loop connection message (took 2) ≡ ok d)
      × (contents d.output_buffer ≡ contents connection.output_buffer ++ drop 2 message)
      × ((d.poller.store d.channel).events ≡ write_event))
    ⊎ ((send_in_loop connection message (took 2) ≡ err length_error)
        × (max_size < connection.output_buffer.writer_index + length message))
send_in_loop-deaf_example =
    send_in_loop-deaf connection message 2 connection-IsOpen refl (omega arith) (omega arith)

-- The peer has gone: EPIPE is 32.
connect_destroyed-SendsLate_example :
    (e : TcpConnection) × (connect_destroyed connection ≡ ok e)
    × SendsLate e message (taken e (write_failed 32)) (send_in_loop e message (write_failed 32))
connect_destroyed-SendsLate_example =
    connect_destroyed-SendsLate connection message (write_failed 32) connection-IsOpen.registered
      refl connection-IsOpen.output (omega arith)

write_each-Drained_example : Drained waiting (write_each waiting (0 ∷ 0 ∷ 0 ∷ []))
write_each-Drained_example =
    write_each-Drained waiting (0 ∷ 0 ∷ 0 ∷ []) waiting-IsOpen refl (omega arith) (omega arith)

-- The rest of the message waits, and poll reports that the channel can write.
send_in_loop-Muted_example :
    (c : TcpConnection) × (d : TcpConnection) × ((new_connection (create store) 3 7 11
        >>= connect_established)
      ≡ ok c)
    × (send_in_loop c message (took 2) ≡ ok d)
    × (contents d.output_buffer ≡ drop 2 message)
    × ((handle_event (record (d.poller.store d.channel) { revents = write_event }) (pos 40)).1 ≡ [])
send_in_loop-Muted_example =
    send_in_loop-Muted (create store) 3 7 11 message 2 write_event (pos 40) (create-IsValid store)
      (λ fd h. cc) refl (omega arith) (omega arith) (refl, refl, refl)
