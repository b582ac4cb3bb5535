-- ===== src/TcpConnection/Flush/Once.antt =====
-- One call of `handleWrite`, by what `write` returns.
use second_gear.Common.{
  ℕ, zero, suc, ◌≤◌, ◌≡◌, ◌≢◌, refl, ap, ◌∙◌, ◌⊎◌, inl, inr, true, false, List, [], ◌∷◌, ◌++◌,
  Result, ok, length, take, drop, arith, ◌==◌, ==_iff, Bool-cases, if-true, if-false,
}
use second_gear.Buffer.{readable_bytes, peeked}
use second_gear.Buffer.Valid.{contents, sizes_lem, peeked-contents}
use second_gear.Buffer.Read.{retrieve-Drops}
use second_gear.TcpConnection.{
  TcpConnection, Effect, wrote, shut_write, effect, channel_writing, WriteResult, write_failed,
  took, is_disconnecting, after_write, handle_write,
}
use second_gear.TcpConnection.Open.{IsOpen, AtMost, readable_bytes-nil, true-false}
use second_gear.TcpConnection.Flush.{Drains, drained-Drains}

-- Bytes are left, and the channel waits on.
abbrev More : TcpConnection → List Effect → TcpConnection → Type 0
More c es d = (contents d.output_buffer ≢ []) × (channel_writing d ≡ true) × (d.effects ≡ es)

-- None is left; the end of the stream follows, if a shutdown has waited for it.
abbrev Last : TcpConnection → List Effect → TcpConnection → Type 0
Last c es d =
    (contents d.output_buffer ≡ [])
    × (channel_writing d ≡ false)
    × (((is_disconnecting c.state ≡ false) × (d.effects ≡ es))
        ⊎ ((is_disconnecting c.state ≡ true) × (d.effects ≡ es ++ (shut_write ∷ []))))

-- The first `n` bytes that wait have gone to the kernel, as one write.
abbrev Takes : TcpConnection → ℕ → TcpConnection → Type 0
Takes c n d =
    (contents d.output_buffer ≡ drop n (contents c.output_buffer))
    × (More c (c.effects ++ (wrote (take n (contents c.output_buffer)) ∷ [])) d
        ⊎ Last c (c.effects ++ (wrote (take n (contents c.output_buffer)) ∷ [])) d)

abbrev Does : TcpConnection → WriteResult → TcpConnection → Type 0
Does c (write_failed errno) d = d ≡ c
Does c (took zero) d = d ≡ c
Does c (took (suc n)) d =
    ((channel_writing c ≡ false) × (d ≡ c)) ⊎ ((channel_writing c ≡ true) × Takes c (suc n) d)

abbrev pub Handles : TcpConnection → WriteResult → Result TcpConnection → Type 0
Handles c result r =
    (d : TcpConnection) × (r ≡ ok d) × IsOpen d × (d.state ≡ c.state) × Does c result d

After : TcpConnection → ℕ → Result TcpConnection → Type 0
After c n r = (d : TcpConnection) × (r ≡ ok d) × IsOpen d × (d.state ≡ c.state) × Takes c n d

after_write-After :
    (c : TcpConnection) (n : ℕ)
    → IsOpen c
    → n ≤ readable_bytes c.output_buffer
    → channel_writing c ≡ true
    → After c n (after_write c n)
unfolding after_write Drains After
after_write-After c n g h w = elim (retrieve-Drops c.output_buffer n g.output) [
  | inr (e, few) ↦ absurd (omega (arith, (sizes_lem g.output).0))
  | inl (out, e, valid, same, len, low) ↦
      let rest : TcpConnection =
        effect (record c { output_buffer = out }) (wrote (take n (peeked c.output_buffer))) in
      let bytes : rest.effects ≡ c.effects ++ (wrote (take n (contents c.output_buffer)) ∷ []) =
        ap (λ bs. c.effects ++ (wrote (take n bs) ∷ [])) (peeked-contents g.output) in
      elim (Bool-cases (readable_bytes out == 0)) [
        | inl none_left ↦
            let empty = readable_bytes-nil valid ((==_iff _ _).0 none_left) in
            let (d, f, opened, output, same_stream, state, quiet, ends) =
              drained-Drains rest g.registered g.input valid empty in
            (
              d,
              rw (e, none_left) f,
              opened,
              state,
              (
                ap contents output ∙ same,
                inr (
                  ap contents output ∙ empty,
                  quiet,
                  elim ends [
                    | inl (es, still) ↦ inl (still, es ∙ bytes)
                    | inr (es, closing) ↦ inr (closing, es ∙ ap (λ l. l ++ (shut_write ∷ [])) bytes)
                  ],
                ),
              ),
            )
        | inr left ↦ (
          rest,
          rw (e, left) refl,
          record {
            registered = g.registered;
            input = g.input;
            output = valid;
            flushed = λ q. absurd (true-false _ w q);
          },
          refl,
          (
            same,
            inl (
              λ nil.
                  absurd (true-false _ ((==_iff _ _).1 ((sizes_lem valid).0 ∙ ap length nil)) left),
              w,
              bytes,
            ),
          ),
        )
      ]
]

-- `handleWrite` on an open connection, when `write` takes no more than it is given: no assertion fails,
-- and the connection stays open and in its state. If `write` fails or takes nothing, or the channel does
-- not wait to write, nothing changes. Otherwise the bytes taken are the first ones that waited, which are
-- written after all earlier effects, and the rest is kept. If the rest is not empty, the channel waits on
-- and that is the only effect; if it is empty, the channel stops waiting, and the end of the stream is
-- the one further effect just when the connection is shutting down.
pub handle_write-Handles :
    (c : TcpConnection) (result : WriteResult)
    → IsOpen c
    → AtMost result (readable_bytes c.output_buffer)
    → Handles c result (handle_write c result)
unfolding handle_write After
handle_write-Handles c (write_failed errno) g h = (c, refl, g, refl, refl)
handle_write-Handles c (took zero) g h = (c, refl, g, refl, refl)
handle_write-Handles c (took (suc n)) g h = elim (Bool-cases (channel_writing c)) [
  | inl w ↦
      let (d, e, opened, state, takes) = after_write-After c (suc n) g h w in
      (d, if-true _ _ w ∙ e, opened, state, inr (w, takes))
  | inr quiet ↦ (c, if-false _ _ quiet, g, refl, inl (quiet, refl))
]
