-- ===== src/Reactor/Turn.antt =====
-- A turn of the loop: which callbacks and functors run, and in which order.
use second_gear.Common.{
  ℕ, suc, ◌≡◌, refl, sym, ap, ◌∙◌, true, false, List, [], ◌∷◌, ◌++◌, map, map-append, append-nil,
  append_assoc, Result, ok, ◌>>=◌, subst,
}
use second_gear.Time.{Timestamp}
use second_gear.Channel.{
  Channel, Call, close_calls, error_calls, read_calls, write_calls, handle_event,
}
use second_gear.Poller.{ChannelPtr, Poller, poll}
use second_gear.EventLoop.{Functor, begin_functors, call_next, end_functors}
use second_gear.Reactor.{
  Event, handled, ran, Reactor, logged, with_channel, Script, run_calls, run_due, handle_channel,
  handle_channels, run_functors, run_pending, turn,
}
use second_gear.Reactor.Views.{
  SameViews, due_calls, due_calls-view, with_channel-SameViews, ByView, close_calls-ByView,
  error_calls-ByView, read_calls-ByView, write_calls-ByView,
}

-- A callback or a functor ends, and leaves the flags and the callbacks of the channels alone. It may
-- queue functors, end the loop, and change what channels wait for.
pub record Tame {ℓ} {A : Type ℓ} (act : A → Reactor → Result Reactor) : Type ℓ where
  pub next : A → Reactor → Reactor
  pub ends : (a : A) (r : Reactor) → act a r ≡ ok (next a r)
  pub quiet : (a : A) (r : Reactor) → (next a r).log ≡ r.log
  pub keeps : (a : A) (r : Reactor) → SameViews r (next a r)

-- A call ended; these are the events that it added, and no view changed.
abbrev pub Adds : Reactor → List Event → Result Reactor → Type 0
Adds r events out = (q : Reactor) × (out ≡ ok q) × (q.log ≡ r.log ++ events) × SameViews r q

-- Calls one after the other, where the second adds what it adds from any state with the same views.
then-Adds :
    (r : Reactor) (es fs : List Event) {out : Result Reactor} (k : Reactor → Result Reactor)
    → Adds r es out
    → ((m : Reactor) → SameViews r m → Adds m fs (k m))
    → Adds r (es ++ fs) (out >>= k)
then-Adds r es fs k (m, e, added, same) next =
    let (q, f, more, kept) = next m same in
    (
      q,
      ap (λ s. s >>= k) e ∙ f,
      more ∙ ap (λ l. l ++ fs) added ∙ append_assoc r.log es fs,
      λ p. kept p ∙ same p,
    )

regroup :
    (ws xs ys zs : List Call)
    → map handled ws ++ map handled xs ++ map handled ys ++ map handled zs
      ≡ map handled (ws ++ (xs ++ (ys ++ zs)))
regroup ws xs ys zs =
    append_assoc (map handled ws ++ map handled xs) (map handled ys) (map handled zs)
    ∙ append_assoc (map handled ws) (map handled xs) (map handled ys ++ map handled zs)
    ∙ ap (λ es. map handled ws ++ es)
        (ap (λ es. map handled xs ++ es) (sym (map-append handled ys zs))
          ∙ sym (map-append handled xs (ys ++ zs)))
    ∙ sym (map-append handled ws (xs ++ (ys ++ zs)))

module _ (react : Call → Reactor → Result Reactor) (run : Functor → Reactor → Result Reactor)
    (calls : Tame react) (functors : Tame run) where
  run_calls-Adds :
      (r : Reactor) (cs : List Call) → Adds r (map handled cs) (run_calls react run r cs)
  unfolding run_calls
  run_calls-Adds r [] = (r, refl, sym (append-nil _), λ p. refl)
  run_calls-Adds r (c ∷ cs) =
      let m = calls.next c (logged r (handled c)) in
      let (q, e, added, same) = run_calls-Adds m cs in
      (
        q,
        ap (λ s. s >>= λ x. run_calls react run x cs) (calls.ends c (logged r (handled c))) ∙ e,
        added
            ∙ ap (λ l. l ++ map handled cs) (calls.quiet c (logged r (handled c)))
            ∙ append_assoc r.log _ _,
        λ p. same p ∙ calls.keeps c (logged r (handled c)) p,
      )

  run_due-Adds :
      (due : Channel → List Call) (ch : ChannelPtr) (r m : Reactor)
      → ByView due
      → SameViews r m
      → Adds m (map handled (due (r.poller.store ch))) (run_due react run due ch m)
  unfolding run_due
  run_due-Adds due ch r m by_view same =
      subst (λ cs. Adds m (map handled cs) (run_calls react run m (due (m.poller.store ch))))
        (by_view _ _ (same ch)) (run_calls-Adds m (due (m.poller.store ch)))

  handle_channel-Adds :
      (r : Reactor) (ch : ChannelPtr) (t : Timestamp)
      → Adds r
          (map handled (handle_event (r.poller.store ch) t).1)
          (handle_channel react run r ch t)
  unfolding handle_channel handle_event
  handle_channel-Adds r ch t =
      let c = r.poller.store ch in
      let marked = with_channel r ch (record c { event_handling = true }) in
      let from : (m : Reactor) → SameViews marked m → SameViews r m =
        λ m same p. same p ∙ with_channel-SameViews r ch true p in
      let closed =
        run_due-Adds close_calls ch r marked close_calls-ByView
          (with_channel-SameViews r ch true) in
      let failed =
        then-Adds marked _ _ (run_due react run error_calls ch) closed
          (λ m same. run_due-Adds error_calls ch r m error_calls-ByView (from m same)) in
      let read =
        then-Adds marked _ _ (run_due react run (read_calls t) ch) failed
          (λ m same. run_due-Adds (read_calls t) ch r m (read_calls-ByView t) (from m same)) in
      let (q, e, added, same) =
        then-Adds marked _ _ (run_due react run write_calls ch) read
          (λ m same. run_due-Adds write_calls ch r m write_calls-ByView (from m same)) in
      (
        with_channel q ch (record (q.poller.store ch) { event_handling = false }),
        ap
            (λ s. s >>= λ x.
              ok (with_channel x ch (record (x.poller.store ch) { event_handling = false })))
            e,
        added
            ∙ ap (λ es. r.log ++ es)
                (regroup (close_calls c) (error_calls c) (read_calls t c) (write_calls c)),
        λ p. with_channel-SameViews q ch false p ∙ from q same p,
      )

  handle_channels-Adds :
      (now : ℕ → Timestamp) (i : ℕ) (r : Reactor) (chs : List ChannelPtr)
      → Adds r
          (map handled (due_calls r.poller.store now i chs))
          (handle_channels react run now i r chs)
  unfolding handle_channels
  handle_channels-Adds now i r [] = (r, refl, sym (append-nil _), λ p. refl)
  handle_channels-Adds now i r (ch ∷ chs) =
      subst (λ es. Adds r es (handle_channels react run now i r (ch ∷ chs)))
        (sym (map-append handled (handle_event (r.poller.store ch) (now i)).1 _))
        (then-Adds r (map handled (handle_event (r.poller.store ch) (now i)).1) _
          (λ q. handle_channels react run now (suc i) q chs) (handle_channel-Adds r ch (now i))
          (λ m same.
            subst (λ cs. Adds m (map handled cs) (handle_channels react run now (suc i) m chs))
              (due_calls-view m.poller.store r.poller.store now (suc i) chs same)
              (handle_channels-Adds now (suc i) m chs)))

  run_functors-Adds :
      (r : Reactor) (cbs : List Functor) → Adds r (map ran cbs) (run_functors react run r cbs)
  unfolding run_functors
  run_functors-Adds r [] =
      (record r { loop = end_functors r.loop }, refl, sym (append-nil _), λ p. refl)
  run_functors-Adds r (cb ∷ cbs) =
      let begun = record (logged r (ran cb)) { loop = call_next r.loop cb cbs } in
      let m = functors.next cb begun in
      let (q, e, added, same) = run_functors-Adds m cbs in
      (
        q,
        ap (λ s. s >>= λ x. run_functors react run x cbs) (functors.ends cb begun) ∙ e,
        added ∙ ap (λ l. l ++ map ran cbs) (functors.quiet cb begun) ∙ append_assoc r.log _ _,
        λ p. same p ∙ functors.keeps cb begun p,
      )

  -- A turn, when `poll` returns channels, and the callbacks and the functors end and leave the flags and the
  -- callbacks of the channels alone: it ends; after the events that were logged come the callbacks that the
  -- active channels' flags ask for, channel by channel in the order of the list, then the functors that were
  -- pending when the last callback had returned, in their order, and nothing else: not the functors that
  -- these functors queue.
  pub turn_lem :
      (script : Script) (r : Reactor) {active : List ChannelPtr} {p : Poller}
      → poll r.poller script.result ≡ ok (active, p)
      → (m : Reactor) × (q : Reactor) × (handle_channels react run script.now 0
            (record r { poller = p })
            active
          ≡ ok m)
        × (turn react run script r ≡ ok q)
        × (q.log
            ≡ r.log
              ++ map handled (due_calls p.store script.now 0 active)
              ++ map ran m.loop.pending_functors)
  unfolding turn run_pending
  turn_lem script r {active} {p} polled =
      let (m, handles, added, same) =
        handle_channels-Adds script.now 0 (record r { poller = p }) active in
      let (q, runs, more, kept) =
        run_functors-Adds (record m { loop = begin_functors m.loop }) m.loop.pending_functors in
      (
        m,
        q,
        handles,
        ap
              (λ s. s >>= (λ found.
                handle_channels react run script.now 0 (record r { poller = found.1 }) found.0
                >>= run_pending react run))
              polled
            ∙ ap (λ s. s >>= run_pending react run) handles
            ∙ runs,
        more ∙ ap (λ l. l ++ map ran m.loop.pending_functors) added,
      )
