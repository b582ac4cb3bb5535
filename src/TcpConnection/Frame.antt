-- ===== src/TcpConnection/Frame.antt =====
-- What `send` and `shutdown` leave as it was: the poller's map, and all other channels.
use second_gear.Common.{
  ℕ, ◌+◌, ◌<◌, ◌≤◌, ◌≡◌, ◌≢◌, refl, sym, ap, ◌∙◌, ◌⊎◌, inl, inr, true, List, Result, ok, err,
  length_error, length, drop, length-drop, arith, ltb, Bool-cases, if-true, if-false, subst,
}
use second_gear.Channel.{Channel}
use second_gear.Poller.{ChannelPtr, Poller}
use second_gear.Poller.Events.{enable_writing-Changes}
use second_gear.Poller.Entries.{Entry, KeepsEntries, Changes-KeepsEntries}
use second_gear.Buffer.{max_size}
use second_gear.Buffer.Write.{append-Appends}
use second_gear.TcpConnection.{
  TcpConnection, effect, channel_writing, WriteResult, write_failed, took, nwrote, try_write,
  keep_rest, send_rest, writes_directly, send_in_loop, send, shutdown, shutdown_in_loop, shut_write,
  is_connected, disconnecting,
}
use second_gear.TcpConnection.Close.{CanClose}
use second_gear.TcpConnection.Send.{send-Sends}
use second_gear.TcpConnection.Open.{IsOpen, effect-IsOpen, state-IsOpen}

pub record Keeps (c d : TcpConnection) : Type 0 where
  pub channel : d.channel ≡ c.channel
  pub channels : d.poller.channels ≡ c.poller.channels
  pub callback : (d.poller.store d.channel).read_callback ≡ (c.poller.store c.channel).read_callback
  pub others : (p : ChannelPtr) → p ≢ c.channel → d.poller.store p ≡ c.poller.store p
  pub entries : KeepsEntries c.poller c.channel d.poller

pub same-Keeps : (c d : TcpConnection) → d.channel ≡ c.channel → d.poller ≡ c.poller → Keeps c d
same-Keeps c d ch po = record {
  channel = ch;
  channels = ap (λ (s : Poller). s.channels) po;
  callback =
      ap (λ (s : Poller). (s.store d.channel).read_callback) po
      ∙ ap (λ p. (c.poller.store p).read_callback) ch;
  others = λ p ne. ap (λ (s : Poller). s.store p) po;
  entries = λ x fd e ne mapped. subst (λ s. Entry s x e) (sym po);
}

-- The writer of the output buffer has moved by no more than `size`.
abbrev pub Low : TcpConnection → ℕ → TcpConnection → Type 0
Low c size d = d.output_buffer.writer_index ≤ c.output_buffer.writer_index + size

-- A call returns such a connection, or throws.
abbrev Returns : TcpConnection → ℕ → Result TcpConnection → Type 0
Returns c size r =
    ((d : TcpConnection) × (r ≡ ok d) × Low c size d × Keeps c d) ⊎ (r ≡ err length_error)

keep_rest-Returns :
    (c : TcpConnection) (rest : List ℕ)
    → IsOpen c
    → length rest ≤ max_size
    → Returns c (length rest) (keep_rest c rest)
unfolding keep_rest
keep_rest-Returns c rest g small = elim (append-Appends c.output_buffer rest g.output small) [
  | inr (e, over) ↦ inr (rw e)
  | inl (out, e, valid, same, low) ↦ elim (Bool-cases (channel_writing c)) [
    | inl w ↦ inl (
      record c { output_buffer = out },
      rw (e, w),
      low,
      same-Keeps c (record c { output_buffer = out }) refl refl,
    )
    | inr w ↦
        let (on, f, ch) = enable_writing-Changes c.poller c.channel g.registered in
        inl (
          record c { output_buffer = out; poller = on },
          rw (e, w, f),
          low,
          record {
            channel = refl;
            channels = ch.channels;
            callback = ap (λ (x : Channel). x.read_callback) ch.now;
            others = ch.others;
            entries = Changes-KeepsEntries g.registered ch;
          },
        )
  ]
]

send_rest-Returns :
    (c : TcpConnection) (message : List ℕ) (n : ℕ)
    → IsOpen c
    → length message ≤ max_size
    → Returns c (length message) (send_rest c message n)
send_rest-Returns c message n g small = elim (Bool-cases (ltb n (length message))) [
  | inl more ↦
      subst (Returns c (length message)) (sym (if-true _ _ more))
        (wider (keep_rest-Returns c (drop n message) g (omega (arith, length-drop n message))))
  | inr done ↦ inl (c, if-false _ _ done, omega arith, same-Keeps c c refl refl)
]
  where
    wider :
        {r : Result TcpConnection}
        → Returns c (length (drop n message)) r
        → Returns c (length message) r
    wider (inl (d, e, low, k)) = inl (d, e, omega (arith, length-drop n message), k)
    wider (inr e) = inr e

-- An effect more or less is no difference.
effect-Returns :
    (c : TcpConnection) (message : List ℕ) (result : WriteResult) {r : Result TcpConnection}
    → Returns (try_write c message result) (length message) r
    → Returns c (length message) r
effect-Returns c message (write_failed errno) h = h
effect-Returns c message (took n) (inr e) = inr e
effect-Returns c message (took n) (inl (d, e, low, k)) = inl (
  d,
  e,
  low,
  record {
    channel = k.channel;
    channels = k.channels;
    callback = k.callback;
    others = k.others;
    entries = k.entries;
  },
)

try_write-IsOpen :
    (c : TcpConnection) (message : List ℕ) (result : WriteResult)
    → IsOpen c
    → IsOpen (try_write c message result)
try_write-IsOpen c message (write_failed errno) g = g
try_write-IsOpen c message (took n) g = effect-IsOpen c _ g

send-Returns :
    (c : TcpConnection) (message : List ℕ) (result : WriteResult)
    → IsOpen c
    → length message ≤ max_size
    → Returns c (length message) (send c true message result)
unfolding send send_in_loop
send-Returns c message result g small = elim (Bool-cases (is_connected c.state)) [
  | inr off ↦ inl (c, if-false _ _ off, omega arith, same-Keeps c c refl refl)
  | inl on ↦
      subst (Returns c (length message)) (sym (if-true _ _ on))
        (elim (Bool-cases (writes_directly c)) [
          | inl direct ↦ subst (Returns c (length message)) (sym (if-true _ _ direct)) (
              effect-Returns c message result (
                send_rest-Returns (try_write c message result) message (nwrote result)
                  (try_write-IsOpen c message result g) small))
          | inr queued ↦
              subst (Returns c (length message)) (sym (if-false _ _ queued))
                (send_rest-Returns c message 0 g small)
        ])
]

-- `send` in the thread of the loop leaves an open connection open in its state and the rest as it was, or
-- throws.
pub send-Stays :
    (c : TcpConnection) (message : List ℕ) (result : WriteResult)
    → IsOpen c
    → length message ≤ max_size
    → ((d : TcpConnection) × (send c true message result ≡ ok d)
        × Low c (length message) d
        × Keeps c d
        × IsOpen d
        × (d.state ≡ c.state))
      ⊎ ((send c true message result ≡ err length_error)
          × (max_size < c.output_buffer.writer_index + length message))
send-Stays c message result g small = elim (send-Sends c true message result g small) [
  | inl (on, here, inr over) ↦ inr over
  | inl (on, here, inl (d, e, opened, same, state, effects)) ↦
      let (low, k) = kept d e (send-Returns c message result g small) in
      inl (d, e, low, k, opened, state)
  | inr (inl (on, there, e)) ↦ cc
  | inr (inr (off, e)) ↦ inl (c, e, omega arith, same-Keeps c c refl refl, g, refl)
]
  where
    kept :
        (d : TcpConnection)
        → send c true message result ≡ ok d
        → Returns c (length message) (send c true message result)
        → Low c (length message) d × Keeps c d
    kept d e (inl (x, f, low, k)) =
        subst (λ y. Low c (length message) y × Keeps c y) (same_ok (sym f ∙ e)) (low, k)
      where
        same_ok : ok x ≡ ok d → x ≡ d
        same_ok h = cc
    kept d e (inr f) = cc

-- `shutdown` leaves an open connection open, one that may close able to, and the rest as it was.
abbrev pub Shuts : TcpConnection → TcpConnection → Type 0
Shuts c d = Keeps c d × IsOpen d × CanClose d

pub shutdown-Shuts : (c : TcpConnection) → IsOpen c → CanClose c → Shuts c (shutdown c true)
unfolding shutdown shutdown_in_loop
shutdown-Shuts c g can =
    let closing : TcpConnection = record c { state = disconnecting } in
    let opened = state-IsOpen c disconnecting g in
    elim (Bool-cases (is_connected c.state)) [
      | inr off ↦ subst (Shuts c) (sym (if-false _ _ off)) (same-Keeps c c refl refl, g, can)
      | inl on ↦ subst (Shuts c) (sym (if-true _ _ on)) (elim (Bool-cases (channel_writing c)) [
        | inl w ↦
            subst (Shuts c) (sym (if-true _ _ w)) (same-Keeps c closing refl refl, opened, refl)
        | inr w ↦ subst (Shuts c) (sym (if-false _ _ w)) (
          same-Keeps c (effect closing shut_write) refl refl,
          effect-IsOpen closing shut_write opened,
          refl,
        )
      ])
    ]
