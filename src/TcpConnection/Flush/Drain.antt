-- ===== src/TcpConnection/Flush/Drain.antt =====
-- `handleWrite` again and again, while each `write` takes something.
use second_gear.Common.{
  ℕ, zero, suc, ◌-◌, ◌≤◌, ◌≡◌, ◌≢◌, refl, sym, ap, ◌∙◌, ◌⊎◌, inl, inr, true, false, List, [], ◌∷◌,
  ◌++◌, append-nil, Result, ok, ◌>>=◌, length, take, drop, length-drop, arith, ltb, ◌==◌, ==_iff,
  Bool-cases, if-true, if-false, if◌then◌else◌, subst,
}
use second_gear.Buffer.{readable_bytes, peeked}
use second_gear.Buffer.Valid.{contents, sizes_lem}
use second_gear.Buffer.Read.{retrieve-Drops}
use second_gear.TcpConnection.{
  TcpConnection, Effect, wrote, shut_write, effect, channel_writing, took, is_disconnecting,
  after_write, handle_write,
}
use second_gear.TcpConnection.Open.{written, stream, IsOpen, readable_bytes-nil, true-false}
use second_gear.TcpConnection.Flush.{Flushes, Drains, drained-Drains, after_write-Writes}

-- What `write` takes of `size` bytes, at least one if there is one.
abbrev pub some_of : (more size : ℕ) → ℕ
some_of more size = if ltb more size then suc more else size

-- One `handleWrite` for each element.
pub write_each : TcpConnection → List ℕ → Result TcpConnection
write_each c [] = ok c
write_each c (more ∷ rest) =
    handle_write c (took (some_of more (readable_bytes c.output_buffer))) >>= λ d. write_each d rest

-- What is left after `n` bytes, and that the channel is quiet if that is nothing.
Left : TcpConnection → ℕ → Result TcpConnection → Type 0
Left c n r =
    (d : TcpConnection) × (r ≡ ok d)
    × (contents d.output_buffer ≡ drop n (contents c.output_buffer))
    × ((contents d.output_buffer ≢ []) ⊎ (channel_writing d ≡ false))

after_write-Left :
    (c : TcpConnection) (n : ℕ)
    → IsOpen c
    → n ≤ readable_bytes c.output_buffer
    → Left c n (after_write c n)
unfolding after_write Drains Left
after_write-Left c n g h = elim (retrieve-Drops c.output_buffer n g.output) [
  | inr (e, few) ↦ absurd (omega (arith, (sizes_lem g.output).0))
  | inl (out, e, valid, same, len, low) ↦
      let rest : TcpConnection =
        effect (record c { output_buffer = out }) (wrote (take n (peeked c.output_buffer))) in
      elim (Bool-cases (readable_bytes out == 0)) [
        | inl none_left ↦
            let empty = readable_bytes-nil valid ((==_iff _ _).0 none_left) in
            let (d, f, opened, output, same_stream, state, quiet, ends) =
              drained-Drains rest g.registered g.input valid empty in
            (d, rw (e, none_left) f, ap contents output ∙ same, inr quiet)
        | inr left ↦ (
          rest,
          rw (e, left) refl,
          same,
          inl (λ nil.
              absurd (true-false _ ((==_iff _ _).1 ((sizes_lem valid).0 ∙ ap length nil)) left)),
        )
      ]
]

some_of-zero : (more : ℕ) → some_of more 0 ≡ 0
some_of-zero more = ground arith

-- Nothing is left.
idle :
    (c : TcpConnection) (rest : List ℕ)
    → readable_bytes c.output_buffer ≡ 0
    → write_each c rest ≡ ok c
unfolding write_each handle_write
idle c [] h = refl
idle c (more ∷ rest) h =
    ap (λ n. handle_write c (took n) >>= λ d. write_each d rest)
      (ap (some_of more) h ∙ some_of-zero more)
    ∙ idle c rest h

-- The end of the stream is the last effect, if a shutdown has waited for it.
abbrev pub Ends : TcpConnection → TcpConnection → Type 0
Ends c d =
    (is_disconnecting c.state ≡ false)
    ⊎ ((es : List Effect) × (d.effects ≡ es ++ (shut_write ∷ [])))

abbrev pub Drained : TcpConnection → Result TcpConnection → Type 0
Drained c r =
    (d : TcpConnection) × (r ≡ ok d)
    × IsOpen d
    × (contents d.output_buffer ≡ [])
    × (channel_writing d ≡ false)
    × (written d.effects ≡ stream c)
    × (d.state ≡ c.state)
    × Ends c d

ok-injective : {c d : TcpConnection} → ok c ≡ ok d → c ≡ d
ok-injective h = cc

-- One of them that takes `n` + 1 bytes.
Step : TcpConnection → ℕ → Type 0
Step c n =
    (d : TcpConnection) × (handle_write c (took (suc n)) ≡ ok d)
    × IsOpen d
    × (stream d ≡ stream c)
    × (d.state ≡ c.state)
    × (contents d.output_buffer ≡ drop (suc n) (contents c.output_buffer))
    × ((contents d.output_buffer ≢ []) ⊎ ((channel_writing d ≡ false) × Ends c d))

step :
    (c : TcpConnection) (n : ℕ)
    → IsOpen c
    → channel_writing c ≡ true
    → suc n ≤ readable_bytes c.output_buffer
    → Step c n
unfolding Step Left handle_write
step c n g w h =
    let (d, e, opened, same, state, flushes) = after_write-Writes c (suc n) g h w in
    let (x, f, rest, quiet) = after_write-Left c (suc n) g h in
    let one : x ≡ d = ok-injective (sym f ∙ e) in
    let kept : contents d.output_buffer ≡ drop (suc n) (contents c.output_buffer) =
      ap (λ (y : TcpConnection). contents y.output_buffer) (sym one) ∙ rest in
    (
      d,
      if-true _ _ w ∙ e,
      opened,
      same,
      state,
      kept,
      elim quiet [
        | inl more ↦
            inl (λ nil. more (ap (λ (y : TcpConnection). contents y.output_buffer) one ∙ nil))
        | inr off ↦ ends flushes kept (ap channel_writing (sym one) ∙ off)
      ],
    )
  where
    ends :
        {d : TcpConnection}
        → Flushes c d
        → contents d.output_buffer ≡ drop (suc n) (contents c.output_buffer)
        → channel_writing d ≡ false
        → (contents d.output_buffer ≢ []) ⊎ ((channel_writing d ≡ false) × Ends c d)
    ends (inl same) kept off = absurd (true-false _ w (ap channel_writing (sym same) ∙ off))
    ends (inr (inl (bs, v, es, inl more))) kept off = inl more
    ends (inr (inl (bs, v, es, inr still))) kept off = inr (off, inl still)
    ends (inr (inr (bs, v, es, nil, closing, quiet))) kept off = inr (off, inr (_, es))

some_of-suc : (more size : ℕ) → 1 ≤ size → (m : ℕ) × (some_of more size ≡ suc m) × (suc m ≤ size)
some_of-suc more zero h = absurd (omega arith)
some_of-suc more (suc size) h = elim (Bool-cases (ltb more (suc size))) [
  | inl less ↦ (more, if-true _ _ less, ground arith)
  | inr all ↦ (size, if-false _ _ all, omega arith)
]

-- After a write, the others.
next-Drained :
    (c d : TcpConnection)
    → stream d ≡ stream c
    → d.state ≡ c.state
    → {r : Result TcpConnection} → Drained d r
    → Drained c r
next-Drained c d same state (x, e, opened, nil, quiet, out, state2, ends) =
    (x, e, opened, nil, quiet, out ∙ same, state2 ∙ state, back ends)
  where
    back : Ends d x → Ends c x
    back (inl still) = inl (ap is_disconnecting (sym state) ∙ still)
    back (inr e) = inr e

-- An open connection whose channel waits to write with bytes left, and at least as many calls of handleWrite
-- as there are bytes, in each of which `write` takes at least one of those that are left: no assertion
-- fails. Afterwards the connection is open and in its state, all the bytes of the stream have been written
-- in order and none is kept, the channel no longer waits to write, and if a shutdown was in progress, the
-- end of the stream has been the last effect.
pub write_each-Drained :
    (c : TcpConnection) (takes : List ℕ)
    → IsOpen c
    → channel_writing c ≡ true
    → 1 ≤ readable_bytes c.output_buffer
    → readable_bytes c.output_buffer ≤ length takes
    → Drained c (write_each c takes)
unfolding write_each Step
write_each-Drained c [] g w some_left enough = absurd (omega arith)
write_each-Drained c (more ∷ rest) g w some_left enough =
    let (m, took_n, in_size) = some_of-suc more (readable_bytes c.output_buffer) some_left in
    let (d, e, opened, same, state, kept, left) = step c m g w in_size in
    let runs : write_each c (more ∷ rest) ≡ write_each d rest =
      ap (λ n. handle_write c (took n) >>= λ x. write_each x rest) took_n
      ∙ ap (λ (r : Result TcpConnection). r >>= λ x. write_each x rest) e in
    let fewer : readable_bytes d.output_buffer ≡ readable_bytes c.output_buffer - suc m = omega (
      arith,
      (sizes_lem opened.output).0,
      (sizes_lem g.output).0,
      ap length kept,
      length-drop (suc m) (contents c.output_buffer),
    ) in
    subst (Drained c) (sym runs) (elim (Bool-cases (readable_bytes d.output_buffer == 0)) [
      | inl none_left ↦
          let zero_left = (==_iff _ _).0 none_left in
          let nil = readable_bytes-nil opened.output zero_left in
          elim left [
            | inl more_left ↦ absurd (more_left nil)
            | inr (quiet, ends) ↦ (
              d,
              idle d rest zero_left,
              opened,
              nil,
              quiet,
              sym (append-nil _) ∙ ap (λ l. written d.effects ++ l) (sym nil) ∙ same,
              state,
              ends,
            )
          ]
      | inr some_more ↦
          let waits : channel_writing d ≡ true = elim (Bool-cases (channel_writing d)) [
            | inl w2 ↦ w2
            | inr off ↦ absurd (
                true-false _
                  ((==_iff _ _).1 ((sizes_lem opened.output).0 ∙ ap length (opened.flushed off)))
                  some_more)
          ] in
          next-Drained c d same state
            (write_each-Drained d rest opened waits (ground arith) (omega arith))
    ])
