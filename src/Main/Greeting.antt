-- ===== src/Main/Greeting.antt =====
-- What a new connection is sent, and what becomes of its input.
use second_gear.Common.{
  ℕ, ◌+◌, ◌^◌, ◌≤◌, ◌<◌, ◌≡◌, refl, sym, ap, ◌∙◌, inl, inr, true, List, ◌++◌, length-append,
  append_assoc, none, Result, ok, err, length_error, ◌>>=◌, length, length-replicate, replicate,
  arith, subst,
}
use second_gear.Common.Int.{ℤ, pos, negsuc}
use second_gear.Time.{Callback}
use second_gear.Poller.{Poller, ChannelPtr}
use second_gear.Poller.Valid
use second_gear.Buffer.{max_size}
use second_gear.Buffer.Valid.{retrieve_all-IsValid}
use second_gear.TcpConnection.{
  TcpConnection, WriteResult, connected, is_connected, send, new_connection, connect_established,
}
use second_gear.TcpConnection.Open.{IsOpen, stream}
use second_gear.TcpConnection.Send.{send-Sends}
use second_gear.TcpConnection.Frame.{Low, send-Stays}
use second_gear.TcpConnection.Establish.{established, established-IsOpen, connect_established-eq}
use second_gear.Poller.Fresh.{Unmapped}
use second_gear.Server.Read.{KeepsBuffer}
use second_gear.Main.{lengths, to_size, filled, messages, on_connection, on_message}

-- A message for which there is room.
Sent : TcpConnection → List ℕ → Result TcpConnection → Type 0
Sent c message r =
    (d : TcpConnection) × (r ≡ ok d)
    × IsOpen d
    × (stream d ≡ stream c ++ message)
    × (d.state ≡ c.state)
    × Low c (length message) d

send-Sent :
    (c : TcpConnection) (message : List ℕ) (result : WriteResult)
    → IsOpen c
    → is_connected c.state ≡ true
    → c.output_buffer.writer_index + length message ≤ max_size
    → Sent c message (send c true message result)
unfolding Sent
send-Sent c message result g on room = elim (send-Sends c true message result g (omega arith)) [
  | inr (inl (o, there, e)) ↦ cc
  | inr (inr (off, e)) ↦ cc
  | inl (o, here, inr (e, over)) ↦ absurd (omega arith)
  | inl (o, here, inl (d, e, opened, same, state, effects)) ↦
      elim (send-Stays c message result g (omega arith)) [
        | inr (f, over) ↦ absurd (omega arith)
        | inl (x, f, low, k, open2, state2) ↦ (
          d,
          e,
          opened,
          same,
          state,
          subst (Low c (length message)) (same_ok x d (sym f ∙ e)) low,
        )
      ]
]
  where
    same_ok : (x d : TcpConnection) → ok x ≡ ok d → x ≡ d
    same_ok x d h = cc

-- A connected connection with nothing sent yet.
on_connection-Sent :
    (c : TcpConnection) (writes : WriteResult × WriteResult) (message1 message2 : List ℕ)
    → IsOpen c
    → is_connected c.state ≡ true
    → c.output_buffer.writer_index + length message1 + length message2 ≤ max_size
    → Sent c (message1 ++ message2) (on_connection writes message1 message2 c)
unfolding Sent on_connection
on_connection-Sent c writes message1 message2 g on room =
    let (d, e, opened, same, state, low) = send-Sent c message1 writes.0 g on (omega arith) in
    let (x, f, opened2, same2, state2, low2) =
      send-Sent d message2 writes.1 opened (ap is_connected state ∙ on) (omega arith) in
    (
      x,
      rw (on, e) f,
      opened2,
      same2 ∙ ap (λ l. l ++ message2) same ∙ append_assoc (stream c) message1 message2,
      state2 ∙ state,
      omega (arith, length-append message1 message2),
    )

filled-eq : (n c : ℕ) → n < 2 ^ 31 → filled (pos n) c ≡ ok (replicate n c)
unfolding filled to_size
filled-eq n c h = ground arith

filled-negative : (n c : ℕ) → n < 2 ^ 31 → filled (negsuc n) c ≡ err length_error
unfolding filled to_size
filled-negative n c h = ground arith

-- The value of an `int`.
abbrev pub IsInt : ℤ → Type 0
IsInt (pos n) = n < 2 ^ 31
IsInt (negsuc n) = n < 2 ^ 31

-- What a program with messages of these lengths does with a connection for the descriptor `sockfd`: it
-- greets it, or the messages throw.
abbrev pub Greets :
    Poller
    → ChannelPtr
    → (sockfd : ℕ) → Callback
    → WriteResult × WriteResult
    → Result (List ℕ × List ℕ)
    → ℤ
    → ℤ
    → Type 0
Greets s channel sockfd read writes r (pos n) (pos m) =
    (message1 : List ℕ) × (message2 : List ℕ) × (d : TcpConnection) × (r ≡ ok (message1, message2))
    × ((new_connection s channel sockfd read
          >>= connect_established
          >>= on_connection writes message1 message2)
        ≡ ok d)
    × IsOpen d
    × (d.state ≡ connected)
    × (stream d ≡ replicate n 65 ++ replicate m 66)
Greets s channel sockfd read writes r (pos n) (negsuc m) = r ≡ err length_error
Greets s channel sockfd read writes r (negsuc n) m = r ≡ err length_error

module _ (s : Poller) (channel : ChannelPtr) (sockfd : ℕ) (read : Callback)
    (writes : WriteResult × WriteResult) (v : second_gear.Poller.Valid.IsValid s)
    (u : Unmapped s channel) (free : s.channels sockfd ≡ none) where
  both-Greets :
      (n m : ℤ)
      → IsInt n
      → IsInt m
      → Greets s channel sockfd read writes
          (filled n 65 >>= λ a. filled m 66 >>= λ b. ok (a, b))
          n
          m
  unfolding Sent
  both-Greets (pos n) (pos m) h k =
      let c = established s channel sockfd read v u free in
      let (d, e, opened, same, state, low) =
        on_connection-Sent c writes (replicate n 65) (replicate m 66)
          (established-IsOpen s channel sockfd read v u free) refl
          (omega (arith, length-replicate {A = ℕ} n 65, length-replicate {A = ℕ} m 66)) in
      (
        replicate n 65,
        replicate m 66,
        d,
        rw (filled-eq n 65 h, filled-eq m 66 k) refl,
        rw (connect_established-eq s channel sockfd read v u free) e,
        opened,
        state,
        same,
      )
  both-Greets (pos n) (negsuc m) h k = rw (filled-eq n 65 h, filled-negative m 66 k) refl
  both-Greets (negsuc n) m h k = rw (filled-negative n 65 h) refl

  -- The program with any arguments, of which `atoi` makes values of an `int`, and a connection
  -- for a descriptor that a valid poller does not have, with a channel at an address that its map
  -- does not name. If both lengths are 0 or more, the messages have these lengths, and the
  -- constructor, connectEstablished and onConnection fail no assertion and do not throw: the
  -- connection is open and connected, and whatever the two calls of `write` take, what is written
  -- and what is kept are together as many `A` as the first length, and then as many `B` as the
  -- second. If a length is negative, making the messages throws `length_error`.
  pub messages-Greets :
      (atoi : List ℕ → ℤ) (argv : List (List ℕ))
      → IsInt (lengths atoi argv).0
      → IsInt (lengths atoi argv).1
      → Greets s channel sockfd read writes
          (messages atoi argv)
          (lengths atoi argv).0
          (lengths atoi argv).1
  unfolding messages
  messages-Greets atoi argv h k = both-Greets (lengths atoi argv).0 (lengths atoi argv).1 h k

-- `onMessage` throws the input away and leaves a valid buffer valid.
pub on_message-KeepsBuffer : KeepsBuffer on_message
unfolding on_message
on_message-KeepsBuffer p t b v = retrieve_all-IsValid v
