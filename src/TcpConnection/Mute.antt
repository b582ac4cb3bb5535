-- ===== src/TcpConnection/Mute.antt =====
-- What the constructor does not set: the callbacks of the channel to write, for errors and to close.
use second_gear.Common.{
  ℕ, ◌+◌, ◌≤◌, ◌<◌, ◌≡◌, refl, ap, ap₂, ◌∙◌, Bool, inl, inr, true, false, List, [], ◌++◌, Option,
  none, some, Result, ok, ◌>>=◌, length, take, drop, length-drop, arith, lt→ltb, if-true,
}
use second_gear.Time.{Timestamp, Callback}
use second_gear.Channel.{
  Channel, Flags, Call, closes, errors, reads, writes, new_channel, handle_event, call_if,
}
use second_gear.Poller.{Poller, ChannelPtr}
use second_gear.Poller.Valid.{IsValid}
use second_gear.Poller.Events.{enable_writing-Changes}
use second_gear.Poller.Fresh.{Unmapped, other_callbacks}
use second_gear.Buffer.{max_size}
use second_gear.Buffer.Valid.{contents}
use second_gear.Buffer.Write.{append-Appends}
use second_gear.TcpConnection.{
  TcpConnection, new_connection, connect_established, send_in_loop, send_rest, keep_rest, wrote,
  effect, channel_writing, writes_directly, took,
}
use second_gear.TcpConnection.Open.{IsOpen, effect-IsOpen}
use second_gear.TcpConnection.Establish.{
  established, established-IsOpen, connect_established-eq, opens,
}

-- A channel whose other callbacks are not set.
abbrev Mute : Channel → Type 0
Mute c = other_callbacks c ≡ (none, none, none)

-- Nothing to read is reported.
abbrev pub NoInput : Flags → Type 0
NoInput f = (f.pollin ≡ false) × (f.pollpri ≡ false) × (f.pollrdhup ≡ false)

unset : (b : Bool) {o : Option Callback} (f : Callback → Call) → o ≡ none → call_if b o f ≡ []
unset b f h = ap (λ o. call_if b o f) h

undue : {b : Bool} (o : Option Callback) (f : Callback → Call) → b ≡ false → call_if b o f ≡ []
undue none f h = refl
undue (some cb) f h = rw h refl

abbrev Callbacks : Type 0
Callbacks = Option Callback × Option Callback × Option Callback

Mute-handle_event :
    (c : Channel) (f : Flags) (t : Timestamp)
    → Mute c
    → NoInput f
    → (handle_event (record c { revents = f }) t).1 ≡ []
unfolding handle_event
Mute-handle_event c f t mute (a, b, d) =
    ap₂ (λ k l. k ++ l) (unset _ closes (ap (λ (x : Callbacks). x.2) mute))
      (ap₂ (λ k l. k ++ l) (unset _ errors (ap (λ (x : Callbacks). x.1) mute))
        (ap₂ (λ k l. k ++ l) (undue c.read_callback (λ cb. reads cb t) (ground arith))
          (unset _ writes (ap (λ (x : Callbacks). x.0) mute))))

-- What is left of a message for which there is room is kept, and the channel gets no other callback.
MuteRest : TcpConnection → List ℕ → Result TcpConnection → Type 0
MuteRest c rest r =
    (d : TcpConnection) × (r ≡ ok d)
    × (contents d.output_buffer ≡ contents c.output_buffer ++ rest)
    × Mute (d.poller.store d.channel)

keep_rest-MuteRest :
    (c : TcpConnection) (rest : List ℕ)
    → IsOpen c
    → channel_writing c ≡ false
    → Mute (c.poller.store c.channel)
    → c.output_buffer.writer_index + length rest ≤ max_size
    → MuteRest c rest (keep_rest c rest)
unfolding keep_rest MuteRest
keep_rest-MuteRest c rest g off mute room =
    elim (append-Appends c.output_buffer rest g.output (omega arith)) [
      | inr (e, over) ↦ absurd (omega arith)
      | inl (out, e, valid, same, low) ↦
          let (on, f, ch) = enable_writing-Changes c.poller c.channel g.registered in
          (
            record c { output_buffer = out; poller = on },
            rw (e, off, f) refl,
            same,
            ap other_callbacks ch.now ∙ mute,
          )
    ]

-- A new connection for a descriptor that a valid poller does not have, with a channel at an address that its
-- map does not name, and a message that fits, of which `write` takes only a part: no assertion fails, and the
-- rest is kept. Whatever poll then reports of the channel but input (that it can write, or an error, or
-- that the peer has hung up), handleEvent runs no callback, so that nothing takes the rest to the kernel.
pub send_in_loop-Muted :
    (s : Poller) (channel : ChannelPtr) (sockfd : ℕ) (read : Callback) (message : List ℕ) (n : ℕ)
    (f : Flags) (t : Timestamp)
    → IsValid s
    → Unmapped s channel
    → s.channels sockfd ≡ none
    → 8 + length message ≤ max_size
    → n < length message
    → NoInput f
    → (c : TcpConnection) × (d : TcpConnection) × ((new_connection s channel sockfd read
          >>= connect_established)
        ≡ ok c)
      × (send_in_loop c message (took n) ≡ ok d)
      × (contents d.output_buffer ≡ drop n message)
      × ((handle_event (record (d.poller.store d.channel) { revents = f }) t).1 ≡ [])
unfolding send_in_loop send_rest MuteRest new_channel
send_in_loop-Muted s channel sockfd read message n f t v u free room part silent =
    let c = established s channel sockfd read v u free in
    let o = opens s channel sockfd read v u free in
    let g = established-IsOpen s channel sockfd read v u free in
    let off : channel_writing c ≡ false = ap (λ (x : Flags). x.pollout) o.events in
    let direct : writes_directly c ≡ true = rw off refl in
    let (d, e, kept, mute) =
      keep_rest-MuteRest (effect c (wrote (take n message))) (drop n message) (effect-IsOpen c _ g)
        off o.callbacks (omega (arith, length-drop n message)) in
    (
      c,
      d,
      connect_established-eq s channel sockfd read v u free,
      if-true _ _ direct ∙ if-true _ _ (lt→ltb _ _ part) ∙ e,
      kept,
      Mute-handle_event (d.poller.store d.channel) f t mute silent,
    )
