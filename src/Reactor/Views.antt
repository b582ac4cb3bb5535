-- ===== src/Reactor/Views.antt =====
-- What `handleEvent` reads of a channel, and the callbacks that follow from it.
use second_gear.Common.{
  ◌&&◌, ◌||◌, not, ℕ, suc, ◌≡◌, refl, sym, ap, ap₂, Bool, List, [], ◌∷◌, ◌++◌, Option, ℕ_discrete,
  subst,
}
use second_gear.Time.{Timestamp, Callback}
use second_gear.Channel.{
  Channel, Call, closes, errors, reads, writes, call_if, close_calls, error_calls, read_calls,
  write_calls, Flags, handle_event,
}
use second_gear.Poller.{ChannelPtr, put}
use second_gear.Poller.Valid.{put_self, put_ne}
use second_gear.Reactor.{Reactor, with_channel}

-- What `handleEvent` reads of a channel.
pub record View : Type 0 where
  pub revents : Flags
  pub read_callback : Option Callback
  pub write_callback : Option Callback
  pub error_callback : Option Callback
  pub close_callback : Option Callback

abbrev pub view : Channel → View
view c = record {
  revents = c.revents;
  read_callback = c.read_callback;
  write_callback = c.write_callback;
  error_callback = c.error_callback;
  close_callback = c.close_callback;
}

-- No channel has other flags or callbacks.
abbrev pub SameViews : Reactor → Reactor → Type 0
SameViews r q = (p : ChannelPtr) → view (q.poller.store p) ≡ view (r.poller.store p)

-- `handleEvent` of a channel goes by its view.
handle_event-view :
    (c d : Channel) (t : Timestamp) → view c ≡ view d → (handle_event c t).1 ≡ (handle_event d t).1
unfolding handle_event
handle_event-view c d t h =
    ap
      (λ (v : View).
        (handle_event
          (record c {
            revents = v.revents;
            read_callback = v.read_callback;
            write_callback = v.write_callback;
            error_callback = v.error_callback;
            close_callback = v.close_callback;
          })
          t).1)
      h

-- The callbacks that are due of the active channels, from the `i`-th on.
abbrev pub due_calls : (ChannelPtr → Channel) → (ℕ → Timestamp) → ℕ → List ChannelPtr → List Call
due_calls store now i [] = []
due_calls store now i (ch ∷ chs) =
    (handle_event (store ch) (now i)).1 ++ due_calls store now (suc i) chs

pub due_calls-view :
    (store other : ChannelPtr → Channel) (now : ℕ → Timestamp) (i : ℕ) (chs : List ChannelPtr)
    → ((p : ChannelPtr) → view (store p) ≡ view (other p))
    → due_calls store now i chs ≡ due_calls other now i chs
due_calls-view store other now i [] h = refl
due_calls-view store other now i (ch ∷ chs) h =
    ap₂ (λ a b. a ++ b) (handle_event-view (store ch) (other ch) (now i) (h ch))
      (due_calls-view store other now (suc i) chs h)

-- `eventHandling_` is no part of a view.
pub with_channel-SameViews :
    (r : Reactor) (ch : ChannelPtr) (b : Bool)
    → SameViews r (with_channel r ch (record (r.poller.store ch) { event_handling = b }))
with_channel-SameViews r ch b p = elim (ℕ_discrete p ch) [
  | yes here ↦
      subst
        (λ q.
          view (put r.poller.store ch (record (r.poller.store ch) { event_handling = b }) q)
          ≡ view (r.poller.store q))
        (sym here) (ap view (put_self r.poller.store ch _))
  | no there ↦ ap view (put_ne r.poller.store ch _ p there)
]

-- The tests of `handleEvent` go by the channel's view.
abbrev pub ByView : (Channel → List Call) → Type 0
ByView due = (c d : Channel) → view c ≡ view d → due c ≡ due d

pub close_calls-ByView : ByView close_calls
close_calls-ByView c d =
    ap (λ (v : View). call_if (v.revents.pollhup && not v.revents.pollin) v.close_callback closes)

pub error_calls-ByView : ByView error_calls
error_calls-ByView c d =
    ap (λ (v : View). call_if (v.revents.pollerr || v.revents.pollnval) v.error_callback errors)

pub read_calls-ByView : (t : Timestamp) → ByView (read_calls t)
read_calls-ByView t c d = ap (λ (v : View).
    call_if (v.revents.pollin || (v.revents.pollpri || v.revents.pollrdhup)) v.read_callback
      (λ cb. reads cb t))

pub write_calls-ByView : ByView write_calls
write_calls-ByView c d = ap (λ (v : View). call_if v.revents.pollout v.write_callback writes)
