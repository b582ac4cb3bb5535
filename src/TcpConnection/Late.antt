-- ===== src/TcpConnection/Late.antt =====
-- A functor that `send` queued, when it runs after `connectDestroyed`. It calls `sendInLoop`, which does
-- not look at the state, and `removeChannel` has left the channel its index.
use second_gear.Common.{
  ℕ, ◌+◌, ◌≤◌, ◌<◌, ◌≡◌, refl, sym, ap, ◌∙◌, ◌⊎◌, inl, inr, List, [], ◌∷◌, ◌++◌, none, some,
  append-nil, Result, ok, err, assertion, length_error, length, take, drop, length-drop, take_all,
  arith, ltb, Bool-cases, lt→ltb, if-true, if-false, if◌then◌else◌, subst,
}
use second_gear.Channel.{none_event}
use second_gear.Poller.Events.{Registered, enable_writing-stale}
use second_gear.Buffer.{max_size}
use second_gear.Buffer.Valid
use second_gear.Buffer.Valid.{contents}
use second_gear.Buffer.Write.{append-Appends}
use second_gear.TcpConnection.{
  TcpConnection, WriteResult, write_failed, took, nwrote, try_write, keep_rest, send_rest,
  writes_directly, send_in_loop, connect_destroyed,
}
use second_gear.TcpConnection.Open.{written, written-wrote}
use second_gear.TcpConnection.Close.{CanClose, connect_destroyed-Destroyed}

-- A connection whose channel the poller has lost, while the channel still has its index.
pub record Stale (e : TcpConnection) : Type 0 where
  pub place : ℕ
  pub index : (e.poller.store e.channel).index ≡ some place
  pub gone : e.poller.channels (e.poller.store e.channel).fd ≡ none
  pub silent : (e.poller.store e.channel).events ≡ none_event
  pub output : second_gear.Buffer.Valid.IsValid e.output_buffer

keep_rest-fails :
    (e : TcpConnection) (rest : List ℕ)
    → Stale e
    → length rest ≤ max_size
    → (keep_rest e rest ≡ err assertion)
      ⊎ ((keep_rest e rest ≡ err length_error)
          × (max_size < e.output_buffer.writer_index + length rest))
unfolding keep_rest
keep_rest-fails e rest g small = elim (append-Appends e.output_buffer rest g.output small) [
  | inr (f, over) ↦ inr (rw f, over)
  | inl (out, f, valid, same, low) ↦
      inl (rw (f, g.silent, enable_writing-stale e.poller e.channel g.index g.gone))
]

-- The kernel takes the message as a whole, or the rest of it cannot be kept.
abbrev pub SendsLate : TcpConnection → List ℕ → ℕ → Result TcpConnection → Type 0
SendsLate e message n r =
    ((length message ≤ n)
      × (f : TcpConnection) × (r ≡ ok f)
      × (written f.effects ≡ written e.effects ++ message)
      × Stale f)
    ⊎ ((n < length message)
        × ((r ≡ err assertion)
            ⊎ ((r ≡ err length_error)
                × (max_size < e.output_buffer.writer_index + length message))))

-- How many bytes of a message `sendInLoop` has the kernel take.
abbrev pub taken : TcpConnection → WriteResult → ℕ
taken e result = if writes_directly e then nwrote result else 0

send_rest-fails :
    (e : TcpConnection) (message : List ℕ) (n : ℕ)
    → Stale e
    → length message ≤ max_size
    → n < length message
    → (send_rest e message n ≡ err assertion)
      ⊎ ((send_rest e message n ≡ err length_error)
          × (max_size < e.output_buffer.writer_index + length message))
send_rest-fails e message n g small part =
    elim (keep_rest-fails e (drop n message) g (omega (arith, length-drop n message))) [
      | inl f ↦ inl (if-true _ _ (lt→ltb _ _ part) ∙ f)
      | inr (f, over) ↦
          inr (if-true _ _ (lt→ltb _ _ part) ∙ f, omega (arith, length-drop n message))
    ]

send_rest-done :
    (e : TcpConnection) (message : List ℕ) (n : ℕ)
    → length message ≤ n
    → send_rest e message n ≡ ok e
send_rest-done e message n all = if-false {b = ltb n (length message)} _ _ (ground arith)

try_write-Stale :
    (e : TcpConnection) (message : List ℕ) (result : WriteResult)
    → Stale e
    → Stale (try_write e message result)
try_write-Stale e message (write_failed errno) g = g
try_write-Stale e message (took n) g = record {
  place = g.place;
  index = g.index;
  gone = g.gone;
  silent = g.silent;
  output = g.output;
}

try_write-all :
    (e : TcpConnection) (message : List ℕ) (result : WriteResult)
    → length message ≤ nwrote result
    → written (try_write e message result).effects ≡ written e.effects ++ message
try_write-all e [] (write_failed errno) all = sym (append-nil _)
try_write-all e (b ∷ bs) (write_failed errno) all = absurd (omega arith)
try_write-all e message (took n) all =
    written-wrote e.effects (take n message)
    ∙ ap (λ l. written e.effects ++ l) (take_all n message all)

short : (n size : ℕ) → (size ≤ n) ⊎ (n < size)
short n size = elim (Bool-cases (ltb n size)) [
  | inl less ↦ inr (ground arith)
  | inr more ↦ inl (ground arith)
]

direct-SendsLate :
    (e : TcpConnection) (message : List ℕ) (result : WriteResult)
    → Stale e
    → length message ≤ max_size
    → SendsLate e message
        (nwrote result)
        (send_rest (try_write e message result) message (nwrote result))
direct-SendsLate e message result g small = elim (short (nwrote result) (length message)) [
  | inl all ↦ inl (
    all,
    try_write e message result,
    send_rest-done _ message _ all,
    try_write-all e message result all,
    try_write-Stale e message result g,
  )
  | inr part ↦ inr (
    part,
    same_buffer result (
        send_rest-fails (try_write e message result) message (nwrote result)
          (try_write-Stale e message result g) small part),
  )
]
  where
    same_buffer :
        (x : WriteResult) {r : Result TcpConnection}
        → (r ≡ err assertion)
          ⊎ ((r ≡ err length_error)
              × (max_size < (try_write e message x).output_buffer.writer_index + length message))
        → (r ≡ err assertion)
          ⊎ ((r ≡ err length_error) × (max_size < e.output_buffer.writer_index + length message))
    same_buffer (write_failed errno) h = h
    same_buffer (took n) h = h

behind-SendsLate :
    (e : TcpConnection) (message : List ℕ)
    → Stale e
    → length message ≤ max_size
    → SendsLate e message 0 (send_rest e message 0)
behind-SendsLate e message g small = elim (short 0 (length message)) [
  | inl all ↦ inl (
    all,
    e,
    send_rest-done e message 0 all,
    sym (append-nil _) ∙ ap (λ l. written e.effects ++ l) (sym (empty message all)),
    g,
  )
  | inr part ↦ inr (part, send_rest-fails e message 0 g small part)
]
  where
    empty : (bs : List ℕ) → length bs ≤ 0 → bs ≡ []
    empty [] h = refl
    empty (b ∷ bs) h = absurd (omega arith)

send_in_loop-SendsLate :
    (e : TcpConnection) (message : List ℕ) (result : WriteResult)
    → Stale e
    → length message ≤ max_size
    → SendsLate e message (taken e result) (send_in_loop e message result)
unfolding send_in_loop
send_in_loop-SendsLate e message result g small = elim (Bool-cases (writes_directly e)) [
  | inl direct ↦ rw direct (direct-SendsLate e message result g small)
  | inr behind ↦ rw behind (behind-SendsLate e message g small)
]

-- A connection that the poller knows, connected or disconnecting, with a valid output buffer, and a message
-- up to the maximum of a vector: connectDestroyed fails no assertion. If a functor that `send` queued runs
-- after it, then either all of the message goes to the kernel although the connection is disconnected; or
-- `write` takes less, or is not called because bytes were left, and the message is not empty, and then the
-- assertion of updateChannel fails that the poller has the channel, or before that it throws
-- `length_error`, and the writer of the output buffer and the length of the message exceed the maximum.
pub connect_destroyed-SendsLate :
    (d : TcpConnection) (message : List ℕ) (result : WriteResult)
    → Registered d.poller d.channel
    → CanClose d
    → second_gear.Buffer.Valid.IsValid d.output_buffer
    → length message ≤ max_size
    → (e : TcpConnection) × (connect_destroyed d ≡ ok e)
      × SendsLate e message (taken e result) (send_in_loop e message result)
connect_destroyed-SendsLate d message result g can output small =
    let (e, f, ds) = connect_destroyed-Destroyed d g can in
    let stale : Stale e = record {
      place = ds.place;
      index = ap (λ p. (e.poller.store p).index) ds.channel ∙ ds.index;
      gone =
          ap (λ p. e.poller.channels (e.poller.store p).fd) ds.channel
          ∙ ap e.poller.channels ds.fd
          ∙ ds.gone;
      silent = ap (λ p. (e.poller.store p).events) ds.channel ∙ ds.silent;
      output = subst second_gear.Buffer.Valid.IsValid (sym ds.output) output;
    } in
    (e, f, send_in_loop-SendsLate e message result stale small)
