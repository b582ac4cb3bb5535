-- ===== src/TcpConnection/Order.antt =====
-- What the calls of `send`, `shutdown` and `handleWrite` do together, in any order: the end of the
-- stream comes once, and no byte after it.
use second_gear.Common.{
  ℕ, ◌≤◌, ◌≡◌, refl, sym, ap, ◌∙◌, ◌⊎◌, inl, inr, Bool, true, false, ◌||◌, List, [], ◌∷◌, ◌++◌, ok,
  length, take, subst, if-true, if-false, Bool-cases, All, All-append,
}
use second_gear.Buffer.{max_size, readable_bytes}
use second_gear.TcpConnection.{
  TcpConnection, StateE, Effect, connection_called, message_called, close_called, wrote, shut_write,
  queued_send, queued_shutdown, channel_writing, WriteResult, is_connected, is_disconnecting,
  connected, disconnecting, connecting, disconnected, send, shutdown, shutdown_in_loop,
  handle_write,
}
use second_gear.TcpConnection.Open.{IsOpen, AtMost, true-false, effect-IsOpen, state-IsOpen}
use second_gear.TcpConnection.Send.{send-Sends}
use second_gear.TcpConnection.Flush.{Flushes, handle_write-Writes}

abbrev pub ends_stream : Effect → Bool
ends_stream connection_called = false
ends_stream (message_called t) = false
ends_stream close_called = false
ends_stream (wrote bs) = false
ends_stream shut_write = true
ends_stream queued_send = false
ends_stream queued_shutdown = false

abbrev pub writes_bytes : Effect → Bool
writes_bytes connection_called = false
writes_bytes (message_called t) = false
writes_bytes close_called = false
writes_bytes (wrote bs) = true
writes_bytes shut_write = false
writes_bytes queued_send = false
writes_bytes queued_shutdown = false

-- Nothing goes out.
abbrev pub Quiet : Effect → Type 0
Quiet e = (ends_stream e || writes_bytes e) ≡ false

-- Nothing goes out after the end of the stream.
abbrev pub EndsOnce : List Effect → Type 0
EndsOnce [] = Unit
EndsOnce (e ∷ es) = (ends_stream e ≡ true → All Quiet es) × EndsOnce es

-- The stream has not ended.
abbrev pub Unended : List Effect → Type 0
Unended = All (λ e. ends_stream e ≡ false)

-- One call of the loop's thread that does not end early.
pub data Step : TcpConnection → TcpConnection → Type 0 where
  sends :
      {c d : TcpConnection} (message : List ℕ) (result : WriteResult)
      → length message ≤ max_size
      → send c true message result ≡ ok d
      → Step c d
  shuts : {c d : TcpConnection} → shutdown c true ≡ d → Step c d
  flushes :
      {c d : TcpConnection} (result : WriteResult)
      → AtMost result (readable_bytes c.output_buffer)
      → handle_write c result ≡ ok d
      → Step c d

-- Such calls, one after the other.
pub data Steps : TcpConnection → TcpConnection → Type 0 where
  done : {c : TcpConnection} → Steps c c
  next : {c d e : TcpConnection} → Step c d → Steps d e → Steps c e

-- An open connection whose stream ends at most once; once it has ended, no call can send any more.
pub record Sound (c : TcpConnection) : Type 0 where
  pub opened : IsOpen c
  pub once : EndsOnce c.effects
  pub ended : Unended c.effects ⊎ ((is_connected c.state ≡ false) × (channel_writing c ≡ false))

Unended-EndsOnce : (es : List Effect) (e : Effect) → Unended es → EndsOnce (es ++ (e ∷ []))
Unended-EndsOnce [] e u = (λ h. tt, tt)
Unended-EndsOnce (x ∷ es) e u = (λ h. absurd (true-false _ h u.0), Unended-EndsOnce es e u.1)

-- Bytes behind a stream that has not ended.
wrote-Unended : (es : List Effect) (bs : List ℕ) → Unended es → Unended (es ++ (wrote bs ∷ []))
wrote-Unended es bs u = All-append (λ e. ends_stream e ≡ false) es _ u (refl, tt)

ok-eq : {c d : TcpConnection} → ok c ≡ ok d → c ≡ d
ok-eq h = cc

-- A connection that can still send has not ended its stream.
connected-Unended : {c : TcpConnection} → Sound c → is_connected c.state ≡ true → Unended c.effects
connected-Unended g on = elim g.ended [ inl u ↦ u | inr (off, w) ↦ absurd (true-false _ on off) ]

writing-Unended : {c : TcpConnection} → Sound c → channel_writing c ≡ true → Unended c.effects
writing-Unended g w = elim g.ended [ inl u ↦ u | inr (off, q) ↦ absurd (true-false _ w q) ]

-- A connection whose stream has not ended.
still-Sound : (c : TcpConnection) → IsOpen c → EndsOnce c.effects → Unended c.effects → Sound c
still-Sound c g once u = record { opened = g; once = once; ended = inl u }

sent-Sound :
    (c d : TcpConnection) (message : List ℕ)
    → Sound c
    → is_connected c.state ≡ true
    → IsOpen d
    → (d.effects ≡ c.effects) ⊎ ((n : ℕ) × (d.effects ≡ c.effects ++ (wrote (take n message) ∷ [])))
    → Sound d
sent-Sound c d message g on opened effects =
    let u = connected-Unended g on in
    elim effects [
      | inl same ↦
          still-Sound d opened (subst EndsOnce (sym same) g.once) (subst Unended (sym same) u)
      | inr (n, more) ↦
          still-Sound d opened (subst EndsOnce (sym more) (Unended-EndsOnce _ _ u))
            (subst Unended (sym more) (wrote-Unended _ _ u))
    ]

send-Sound :
    (c d : TcpConnection) (message : List ℕ) (result : WriteResult)
    → Sound c
    → length message ≤ max_size
    → send c true message result ≡ ok d
    → Sound d
send-Sound c d message result g small h = elim (send-Sends c true message result g.opened small) [
  | inr (inl (on, there, e)) ↦ cc
  | inr (inr (off, e)) ↦ subst Sound (ok-eq (sym e ∙ h)) g
  | inl (on, here, inr (e, over)) ↦ cc
  | inl (on, here, inl (x, e, opened, same, state, effects)) ↦
      subst Sound (ok-eq (sym e ∙ h)) (sent-Sound c x message g on opened effects)
]

shutdown-Sound : (c : TcpConnection) → Sound c → Sound (shutdown c true)
unfolding shutdown shutdown_in_loop
shutdown-Sound c g = elim (Bool-cases (is_connected c.state)) [
  | inr off ↦ subst Sound (sym (if-false _ _ off)) g
  | inl on ↦
      let closing : TcpConnection = record c { state = disconnecting } in
      let opened = state-IsOpen c disconnecting g.opened in
      let u = connected-Unended g on in
      subst Sound (sym (if-true _ _ on)) (elim (Bool-cases (channel_writing c)) [
        | inl w ↦ subst Sound (sym (if-true _ _ w)) (still-Sound closing opened g.once u)
        | inr w ↦ subst Sound (sym (if-false _ _ w)) (record {
          opened = effect-IsOpen closing shut_write opened;
          once = Unended-EndsOnce c.effects shut_write u;
          ended = inr (refl, w);
        })
      ])
]

disconnecting-connected : (s : StateE) → is_disconnecting s ≡ true → is_connected s ≡ false
disconnecting-connected connecting h = cc
disconnecting-connected connected h = cc
disconnecting-connected disconnecting h = refl
disconnecting-connected disconnected h = cc

flushed-Sound :
    (c d : TcpConnection) → Sound c → IsOpen d → d.state ≡ c.state → Flushes c d → Sound d
flushed-Sound c d g opened state f = elim f [
  | inl same ↦ subst Sound (sym same) g
  | inr (inl (bs, w, more, left)) ↦
      let u = writing-Unended g w in
      still-Sound d opened (subst EndsOnce (sym more) (Unended-EndsOnce _ _ u))
        (subst Unended (sym more) (wrote-Unended _ _ u))
  | inr (inr (bs, w, more, empty, closing, quiet)) ↦ record {
    opened = opened;
    once =
        subst EndsOnce (sym more) (Unended-EndsOnce _ _ (wrote-Unended _ bs (writing-Unended g w)));
    ended = inr (ap is_connected state ∙ disconnecting-connected c.state closing, quiet);
  }
]

once_more-Sound : {c d : TcpConnection} → Sound c → Step c d → Sound d
once_more-Sound {c} {d} g (sends message result small h) = send-Sound c d message result g small h
once_more-Sound {c} {d} g (shuts h) = subst Sound h (shutdown-Sound c g)
once_more-Sound {c} {d} g (flushes result most h) =
    let (x, e, opened, same, state, f) = handle_write-Writes c result g.opened most in
    subst Sound (ok-eq (sym e ∙ h)) (flushed-Sound c x g opened state f)

-- From an open connection that has ended its stream at most once, sent nothing after, and can send
-- nothing more if it has, whatever calls of send, shutdown and handleWrite
-- the thread of the loop makes, in any order and with any results of `write` that are no more than it was
-- given, as long as no call ends early and no message exceeds the maximum of a vector: the end of the
-- stream has come at most once, no bytes went out after it, and if it has come the connection is no longer
-- connected and its channel no longer waits to write. The connection stays open, so that its channel
-- waits to write while bytes are left.
pub steps-Sound : {c d : TcpConnection} → Sound c → Steps c d → Sound d
steps-Sound g done = g
steps-Sound g (next s ss) = steps-Sound (once_more-Sound g s) ss
