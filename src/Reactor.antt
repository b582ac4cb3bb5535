-- ===== src/Reactor.antt =====
-- `EventLoop::loop()` over the poller, the channels and the pending functors. What the user's callbacks and
-- functors do is an argument: `react` for a callback of a channel, `run` for a functor. One list of what
-- the system call `poll` did, with the times that the channels of that turn are given, is the script of a
-- run.
pub mod Views
pub mod Turn
mod Tests
use second_gear.Common.{
  ℕ, suc, Bool, true, false, List, [], ◌∷◌, ◌++◌, Result, ok, ◌>>=◌, if◌then◌else◌,
}
use second_gear.Time.{Timestamp}
use second_gear.Channel.{Channel, Call, close_calls, error_calls, read_calls, write_calls}
use second_gear.Poller.{ChannelPtr, Poller, PollResult, put, poll}
use second_gear.EventLoop.{
  EventLoop, Functor, begin_functors, call_next, end_functors, begin_loop, end_loop,
}

pub data Event : Type 0 where
  handled : Call → Event
  ran : Functor → Event

-- The members of the loop that `loop()` uses; `log` has the callbacks and functors that have begun.
pub record Reactor : Type 0 where
  pub loop : EventLoop
  pub poller : Poller
  pub log : List Event

abbrev pub logged : Reactor → Event → Reactor
logged r e = record r { log = r.log ++ (e ∷ []) }

abbrev pub with_channel : Reactor → ChannelPtr → Channel → Reactor
with_channel r ch c = record r { poller = record (r.poller) { store = put r.poller.store ch c } }

-- One turn's results: of the system call, and of `Timestamp::now()` for each active channel.
pub record Script : Type 0 where
  pub result : PollResult
  pub now : ℕ → Timestamp

module _ (react : Call → Reactor → Result Reactor) (run : Functor → Reactor → Result Reactor) where
  unfoldable pub run_calls : Reactor → List Call → Result Reactor
  run_calls r [] = ok r
  run_calls r (c ∷ cs) = react c (logged r (handled c)) >>= λ q. run_calls q cs

  -- One test of `handleEvent`, on the channel as it is by then.
  unfoldable pub run_due : (Channel → List Call) → ChannelPtr → Reactor → Result Reactor
  run_due due ch r = run_calls r (due (r.poller.store ch))

  -- `handleEvent`, in which `eventHandling_` is set while the callbacks run.
  unfoldable pub handle_channel : Reactor → ChannelPtr → Timestamp → Result Reactor
  handle_channel r ch receive_time =
      run_due close_calls ch
        (with_channel r ch (record (r.poller.store ch) { event_handling = true }))
      >>= run_due error_calls ch
      >>= run_due (read_calls receive_time) ch
      >>= run_due write_calls ch
      >>= λ q. ok (with_channel q ch (record (q.poller.store ch) { event_handling = false }))

  -- The loop over `activeChannels_`, from the `i`-th on.
  unfoldable pub handle_channels : (ℕ → Timestamp) → ℕ → Reactor → List ChannelPtr → Result Reactor
  handle_channels now i r [] = ok r
  handle_channels now i r (ch ∷ chs) =
      handle_channel r ch (now i) >>= λ q. handle_channels now (suc i) q chs

  -- The loop of `doPendingFunctors`; what a functor queues goes to another list.
  unfoldable pub run_functors : Reactor → List Functor → Result Reactor
  run_functors r [] = ok (record r { loop = end_functors r.loop })
  run_functors r (cb ∷ cbs) =
      run cb (record (logged r (ran cb)) { loop = call_next r.loop cb cbs }) >>= λ q.
      run_functors q cbs

  unfoldable pub run_pending : Reactor → Result Reactor
  run_pending r = run_functors (record r { loop = begin_functors r.loop }) r.loop.pending_functors

  -- The body of the loop.
  unfoldable pub turn : Script → Reactor → Result Reactor
  turn script r = poll r.poller script.result >>= λ found.
      handle_channels script.now 0 (record r { poller = found.1 }) found.0 >>= run_pending

  -- `while(!quit_)`; where the script ends the loop has not ended.
  unfoldable pub turns : List Script → Reactor → Result Reactor
  turns [] r = ok (if r.loop.quit then record r { loop = end_loop r.loop } else r)
  turns (script ∷ scripts) r =
      if r.loop.quit
      then ok (record r { loop = end_loop r.loop })
      else (turn script r >>= λ q. turns scripts q)

  unfoldable pub loop : List Script → Reactor → Result Reactor
  loop scripts r = begin_loop r.loop >>= λ l. turns scripts (record r { loop = l })
