-- ===== src/TcpConnection/Flush.antt =====
-- `handleWrite`: the output buffer empties in order, and the end of the stream follows its last byte.
pub mod Drain
pub mod Once
use second_gear.Common.{
  ℕ, zero, suc, ◌≤◌, ◌≡◌, ◌≢◌, refl, sym, ap, ap₂, ◌∙◌, ◌⊎◌, inl, inr, true, false, List, [], ◌∷◌,
  ◌++◌, append-nil, append_assoc, Result, ok, length, take, take-append-drop, arith, ◌==◌, ==_iff,
  Bool-cases, if-true, if-false, subst,
}
use second_gear.Channel.{Channel}
use second_gear.Poller.Events.{Registered, disable_writing-Changes}
use second_gear.Buffer.{Buffer, readable_bytes, retrieve, peeked}
use second_gear.Buffer.Valid
use second_gear.Buffer.Valid.{contents, sizes_lem, peeked-contents}
use second_gear.Buffer.Read.{retrieve-Drops}
use second_gear.TcpConnection.{
  TcpConnection, Effect, wrote, shut_write, effect, channel_writing, WriteResult, write_failed,
  took, is_disconnecting, shutdown_in_loop, drained, after_write, handle_write,
}
use second_gear.TcpConnection.Open.{
  written, stream, IsOpen, AtMost, written-append, written-wrote, readable_bytes-nil, true-false,
  effect-IsOpen,
}

-- What the channel's turn to write leaves: nothing happened; or bytes were written, and some are left or
-- no shutdown waits; or the last bytes were written, and the end of the stream after them.
abbrev pub Flushes : TcpConnection → TcpConnection → Type 0
Flushes c d =
    (d ≡ c)
    ⊎ ((bs : List ℕ) × (channel_writing c ≡ true)
        × (d.effects ≡ c.effects ++ (wrote bs ∷ []))
        × ((contents d.output_buffer ≢ []) ⊎ (is_disconnecting c.state ≡ false)))
    ⊎ ((bs : List ℕ) × (channel_writing c ≡ true)
        × (d.effects ≡ (c.effects ++ (wrote bs ∷ [])) ++ (shut_write ∷ []))
        × (contents d.output_buffer ≡ [])
        × (is_disconnecting c.state ≡ true)
        × (channel_writing d ≡ false))

abbrev Writes : TcpConnection → Result TcpConnection → Type 0
Writes c r =
    (d : TcpConnection) × (r ≡ ok d)
    × IsOpen d
    × (stream d ≡ stream c)
    × (d.state ≡ c.state)
    × Flushes c d

-- With an empty output buffer the channel stops waiting, and a shutdown that waits is done.
Drains : TcpConnection → Result TcpConnection → Type 0
Drains c r =
    (d : TcpConnection) × (r ≡ ok d)
    × IsOpen d
    × (d.output_buffer ≡ c.output_buffer)
    × (stream d ≡ stream c)
    × (d.state ≡ c.state)
    × (channel_writing d ≡ false)
    × (((d.effects ≡ c.effects) × (is_disconnecting c.state ≡ false))
        ⊎ ((d.effects ≡ c.effects ++ (shut_write ∷ [])) × (is_disconnecting c.state ≡ true)))

drained-Drains :
    (c : TcpConnection)
    → Registered c.poller c.channel
    → second_gear.Buffer.Valid.IsValid c.input_buffer
    → second_gear.Buffer.Valid.IsValid c.output_buffer
    → contents c.output_buffer ≡ []
    → Drains c (drained c)
unfolding drained Drains shutdown_in_loop
drained-Drains c reg input output empty =
    let (off, f, ch) = disable_writing-Changes c.poller c.channel reg in
    let quiet : (off.store c.channel).events.pollout ≡ false =
      ap (λ (x : Channel). x.events.pollout) ch.now in
    let g : IsOpen (record c { poller = off }) = record {
      registered = ch.registered;
      input = input;
      output = output;
      flushed = λ n. empty;
    } in
    elim (Bool-cases (is_disconnecting c.state)) [
      | inl closing ↦ (
        effect (record c { poller = off }) shut_write,
        rw (f, closing, quiet),
        effect-IsOpen _ shut_write g,
        refl,
        ap (λ l. l ++ contents c.output_buffer) (written-append c.effects _ ∙ append-nil _),
        refl,
        quiet,
        inr (refl, closing),
      )
      | inr still ↦
          (record c { poller = off }, rw (f, still), g, refl, refl, refl, quiet, inl (refl, still))
    ]

-- The stream when bytes go from the front of the output buffer to the kernel.
moved-stream :
    (es : List Effect) (bs rest all : List ℕ)
    → bs ++ rest ≡ all
    → written (es ++ (wrote bs ∷ [])) ++ rest ≡ written es ++ all
moved-stream es bs rest all h =
    ap (λ l. l ++ rest) (written-wrote es bs)
    ∙ append_assoc (written es) bs rest
    ∙ ap (λ l. written es ++ l) h

after_write-Writes :
    (c : TcpConnection) (n : ℕ)
    → IsOpen c
    → n ≤ readable_bytes c.output_buffer
    → channel_writing c ≡ true
    → Writes c (after_write c n)
unfolding after_write Drains
after_write-Writes c n g h w = elim (retrieve-Drops c.output_buffer n g.output) [
  | inr (e, few) ↦ absurd (omega (arith, (sizes_lem g.output).0))
  | inl (out, e, valid, same, len, low) ↦
      let bs = take n (peeked c.output_buffer) in
      let rest : TcpConnection = effect (record c { output_buffer = out }) (wrote bs) in
      let pieces : bs ++ contents out ≡ contents c.output_buffer =
        ap₂ (λ l r. take n l ++ r) (peeked-contents g.output) same ∙ take-append-drop n _ in
      elim (Bool-cases (readable_bytes out == 0)) [
        | inl none_left ↦
            let empty : contents out ≡ [] = readable_bytes-nil valid ((==_iff _ _).0 none_left) in
            let (d, f, opened, output, same_stream, state, quiet, ends) =
              drained-Drains rest g.registered g.input valid empty in
            (
              d,
              rw (e, none_left) f,
              opened,
              same_stream ∙ moved-stream c.effects bs (contents out) _ pieces,
              state,
              elim ends [
                | inl (es, still) ↦ inr (inl (bs, w, es, inr still))
                | inr (es, closing) ↦
                    inr (inr (bs, w, es, ap contents output ∙ empty, closing, quiet))
              ],
            )
        | inr left ↦ (
          rest,
          rw (e, left),
          record {
            registered = g.registered;
            input = g.input;
            output = valid;
            flushed = λ q. absurd (true-false _ w q);
          },
          moved-stream c.effects bs (contents out) _ pieces,
          refl,
          inr (
              inl (
                bs,
                w,
                refl,
                inl (λ nil.
                    absurd
                      (true-false _ ((==_iff _ _).1 ((sizes_lem valid).0 ∙ ap length nil)) left)),
              )),
        )
      ]
]

pub handle_write-Writes :
    (c : TcpConnection) (result : WriteResult)
    → IsOpen c
    → AtMost result (readable_bytes c.output_buffer)
    → Writes c (handle_write c result)
unfolding handle_write
handle_write-Writes c (write_failed errno) g h = (c, refl, g, refl, refl, inl refl)
handle_write-Writes c (took zero) g h = (c, refl, g, refl, refl, inl refl)
handle_write-Writes c (took (suc n)) g h = elim (Bool-cases (channel_writing c)) [
  | inl w ↦ subst (Writes c) (sym (if-true _ _ w)) (after_write-Writes c (suc n) g h w)
  | inr quiet ↦ (c, if-false _ _ quiet, g, refl, refl, inl refl)
]
