-- ===== src/TcpConnection/Send.antt =====
-- `sendInLoop` and `send`: each byte of the message is written or kept, in order.
use second_gear.Common.{
  ℕ, ◌+◌, ◌≤◌, ◌<◌, ◌≡◌, refl, sym, ap, ap₂, ◌∙◌, ◌⊎◌, inl, inr, Bool, true, false, List, [], ◌∷◌,
  ◌++◌, append-nil, append_assoc, Result, ok, err, length_error, length, take, drop,
  take-append-drop, length-drop, drop_all, arith, ltb, Bool-cases, lt→ltb, if-true,
}
use second_gear.Channel.{Channel, write_event}
use second_gear.Poller.Events.{enable_writing-Changes}
use second_gear.Buffer.{max_size}
use second_gear.Buffer.Valid.{contents}
use second_gear.Buffer.Write.{append-Appends}
use second_gear.TcpConnection.{
  TcpConnection, wrote, effect, channel_writing, WriteResult, write_failed, took, nwrote, try_write,
  keep_rest, send_rest, writes_directly, send_in_loop, send, queued_send, is_connected,
}
use second_gear.TcpConnection.Open.{
  written, stream, IsOpen, written-wrote, readable_bytes-nil, true-false, effect-IsOpen,
}

-- What keeping `rest` does.
Keeps : TcpConnection → List ℕ → Result TcpConnection → Type 0
Keeps c rest r =
    ((d : TcpConnection) × (r ≡ ok d)
      × IsOpen d
      × (contents d.output_buffer ≡ contents c.output_buffer ++ rest)
      × (d.effects ≡ c.effects)
      × (d.state ≡ c.state)
      × (channel_writing d ≡ true)
      × (channel_writing c ≡ false → (d.poller.store d.channel).events ≡ write_event))
    ⊎ ((r ≡ err length_error) × (max_size < c.output_buffer.writer_index + length rest))

keep_rest-Keeps :
    (c : TcpConnection) (rest : List ℕ)
    → IsOpen c
    → length rest ≤ max_size
    → Keeps c rest (keep_rest c rest)
unfolding keep_rest Keeps
keep_rest-Keeps c rest g small = elim (append-Appends c.output_buffer rest g.output small) [
  | inr (e, over) ↦ inr (rw e, over)
  | inl (out, e, valid, same, low) ↦ elim (Bool-cases (channel_writing c)) [
    | inl w ↦ inl (
      record c { output_buffer = out },
      rw (e, w),
      record {
        registered = g.registered;
        input = g.input;
        output = valid;
        flushed = λ n. absurd (true-false _ w n);
      },
      same,
      refl,
      refl,
      w,
      λ n. absurd (true-false _ w n),
    )
    | inr w ↦
        let (on, f, ch) = enable_writing-Changes c.poller c.channel g.registered in
        let now : (on.store c.channel).events.pollout ≡ true =
          ap (λ (x : Channel). x.events.pollout) ch.now in
        inl (
          record c { output_buffer = out; poller = on },
          rw (e, w, f),
          record {
            registered = ch.registered;
            input = g.input;
            output = valid;
            flushed = λ n. absurd (true-false _ now n);
          },
          same,
          refl,
          refl,
          now,
          λ n. ap (λ (x : Channel). x.events) ch.now,
        )
  ]
]

-- An open connection with nothing to write, of whose message `write` takes only a part: either it throws
-- `length_error`, and the writer of the output buffer and the length of the message exceed the maximum of a
-- vector, to which the message keeps; or the rest of the message is kept and the channel waits to write and
-- for nothing else, not even for input.
pub send_in_loop-deaf :
    (c : TcpConnection) (message : List ℕ) (n : ℕ)
    → IsOpen c
    → writes_directly c ≡ true
    → length message ≤ max_size
    → n < length message
    → ((d : TcpConnection) × (send_in_loop c message (took n) ≡ ok d)
        × (contents d.output_buffer ≡ contents c.output_buffer ++ drop n message)
        × ((d.poller.store d.channel).events ≡ write_event))
      ⊎ ((send_in_loop c message (took n) ≡ err length_error)
          × (max_size < c.output_buffer.writer_index + length message))
unfolding send_in_loop Keeps
send_in_loop-deaf c message n g direct small part =
    let quiet : channel_writing c ≡ false = ground arith in
    elim (keep_rest-Keeps (effect c (wrote (take n message))) (drop n message) (effect-IsOpen c _ g)
      (omega (arith, length-drop n message))) [
        | inl (d, e, opened, same, effects, state, w, deaf) ↦
            inl (d, if-true _ _ direct ∙ if-true _ _ (lt→ltb _ _ part) ∙ e, same, deaf quiet)
        | inr (e, over) ↦ inr (
          if-true _ _ direct ∙ if-true _ _ (lt→ltb _ _ part) ∙ e,
          omega (arith, length-drop n message),
        )
      ]

-- What the end of `sendInLoop` does, once `n` bytes are written.
RestKept : TcpConnection → List ℕ → ℕ → Result TcpConnection → Type 0
RestKept c message n r =
    ((d : TcpConnection) × (r ≡ ok d)
      × IsOpen d
      × (contents d.output_buffer ≡ contents c.output_buffer ++ drop n message)
      × (d.effects ≡ c.effects)
      × (d.state ≡ c.state))
    ⊎ ((r ≡ err length_error) × (max_size < c.output_buffer.writer_index + length message))

send_rest-RestKept :
    (c : TcpConnection) (message : List ℕ) (n : ℕ)
    → IsOpen c
    → length message ≤ max_size
    → RestKept c message n (send_rest c message n)
unfolding RestKept Keeps
send_rest-RestKept c message n g small = elim (Bool-cases (ltb n (length message))) [
  | inl more ↦ elim (keep_rest-Keeps c (drop n message) g (omega (arith, length-drop n message))) [
    | inl (d, e, opened, same, effects, state, w, deaf) ↦
        inl (d, rw more e, opened, same, effects, state)
    | inr (e, over) ↦ inr (rw more e, omega (arith, length-drop n message))
  ]
  | inr done ↦ inl (
    c,
    rw done,
    g,
    sym (append-nil (contents c.output_buffer))
        ∙ ap (λ l. contents c.output_buffer ++ l) (sym (drop_all n message (ground arith))),
    refl,
    refl,
  )
]

-- What sending `message` does: it lengthens the stream by the message, with at most one write of its
-- front; or the output buffer would have to grow beyond its maximum.
abbrev pub Sends : TcpConnection → List ℕ → Result TcpConnection → Type 0
Sends c message r =
    ((d : TcpConnection) × (r ≡ ok d)
      × IsOpen d
      × (stream d ≡ stream c ++ message)
      × (d.state ≡ c.state)
      × ((d.effects ≡ c.effects)
          ⊎ ((n : ℕ) × (d.effects ≡ c.effects ++ (wrote (take n message) ∷ [])))))
    ⊎ ((r ≡ err length_error) × (max_size < c.output_buffer.writer_index + length message))

-- Nothing is written: the message goes behind the stream.
kept-Sends :
    (c : TcpConnection) (message : List ℕ)
    → IsOpen c
    → length message ≤ max_size
    → Sends c message (send_rest c message 0)
unfolding RestKept
kept-Sends c message g small = elim (send_rest-RestKept c message 0 g small) [
  | inr over ↦ inr over
  | inl (d, e, opened, same, effects, state) ↦ inl (
    d,
    e,
    opened,
    ap₂ (λ es bs. written es ++ bs) effects same ∙ sym (append_assoc (written c.effects) _ message),
    state,
    inl effects,
  )
]

-- The kernel takes `n` bytes while nothing waits.
taken-Sends :
    (c : TcpConnection) (message : List ℕ) (n : ℕ)
    → IsOpen c
    → contents c.output_buffer ≡ []
    → length message ≤ max_size
    → Sends c message (send_rest (try_write c message (took n)) message n)
unfolding RestKept
taken-Sends c message n g empty small =
    elim (send_rest-RestKept (effect c (wrote (take n message))) message n (effect-IsOpen c _ g)
      small) [
        | inr over ↦ inr over
        | inl (d, e, opened, same, effects, state) ↦ inl (
          d,
          e,
          opened,
          ap₂ (λ es bs. written es ++ bs) effects same
              ∙ ap₂ (λ l bs. l ++ (bs ++ drop n message)) (written-wrote c.effects (take n message))
                  empty
              ∙ append_assoc (written c.effects) (take n message) (drop n message)
              ∙ ap (λ l. written c.effects ++ l) (take-append-drop n message)
              ∙ sym (append_assoc (written c.effects) [] message)
              ∙ ap (λ bs. (written c.effects ++ bs) ++ message) (sym empty),
          state,
          inr (n, effects),
        )
      ]

-- `sendInLoop` on an open connection, of a message up to the maximum of a vector: no assertion fails. Either the bytes written and the bytes kept are together
-- lengthened by the message, in order and whatever part `write` took, and the connection stays opened, so
-- that its channel waits to write if bytes are kept; or it throws `length_error`, and the writer of the
-- output buffer and the length of the message exceed the maximum.
pub send_in_loop-Sends :
    (c : TcpConnection) (message : List ℕ) (result : WriteResult)
    → IsOpen c
    → length message ≤ max_size
    → Sends c message (send_in_loop c message result)
unfolding send_in_loop
send_in_loop-Sends c message result g small = elim (Bool-cases (writes_directly c)) [
  | inl direct ↦ rw direct (direct-Sends result direct)
  | inr behind ↦ rw behind (kept-Sends c message g small)
]
  where
    direct-Sends :
        (r : WriteResult)
        → writes_directly c ≡ true
        → Sends c message (send_rest (try_write c message r) message (nwrote r))
    direct-Sends (write_failed errno) h = kept-Sends c message g small
    direct-Sends (took n) h =
        taken-Sends c message n g (readable_bytes-nil g.output (ground arith)) small

-- `send` on an open connection, of a message up to the maximum of a vector. In the thread of the loop and
-- connected it does what `sendInLoop` does; from another thread it changes nothing but that a functor is
-- queued; and not connected it does nothing at all.
pub send-Sends :
    (c : TcpConnection) (in_loop : Bool) (message : List ℕ) (result : WriteResult)
    → IsOpen c
    → length message ≤ max_size
    → ((is_connected c.state ≡ true)
        × (in_loop ≡ true)
        × Sends c message (send c in_loop message result))
      ⊎ ((is_connected c.state ≡ true)
          × (in_loop ≡ false)
          × (send c in_loop message result ≡ ok (effect c queued_send)))
      ⊎ ((is_connected c.state ≡ false) × (send c in_loop message result ≡ ok c))
unfolding send
send-Sends c in_loop message result g small = elim (Bool-cases (is_connected c.state)) [
  | inr off ↦ inr (inr (off, rw off))
  | inl on ↦ elim (Bool-cases in_loop) [
    | inl here ↦ inl (on, here, rw (on, here) (send_in_loop-Sends c message result g small))
    | inr there ↦ inr (inl (on, there, rw (on, there)))
  ]
]
