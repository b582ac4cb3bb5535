-- ===== src/Reactor/Tests.antt =====
-- A turn in which channel 0 is ready, and its callbacks and the functors do nothing.
use second_gear.Common.{◌≡◌, refl, true, [], ◌∷◌, ◌++◌, map, some, Result, ok}
use second_gear.Common.Int.{pos}
use second_gear.Channel.{Channel, none_event, new_channel, read_event}
use second_gear.Poller.{ChannelPtr, Poller, create, add_new, ready, poll, with_revents}
use second_gear.EventLoop as Loop
use second_gear.EventLoop.{EventLoop, Functor, push}
use second_gear.Reactor.{Reactor, Script, handle_channels, turn, handled, ran}
use second_gear.Reactor.Views.{due_calls}
use second_gear.Reactor.Turn.{Tame, turn_lem}

abbrev store : ChannelPtr → Channel
store p = record (new_channel 5) { events = read_event; read_callback = some 1 }

abbrev one_ready : Script
one_ready = record {
  result = ready (record none_event { pollin = true } ∷ []) 1;
  now = λ i. pos 100;
}

abbrev begun : Reactor
begun = record { loop = push Loop.create 7; poller = add_new (create store) 0; log = [] }

abbrev do_nothing : {A : Type 0} → A → Reactor → Result Reactor
do_nothing a r = ok r

abbrev nothing-Tame : {A : Type 0} → Tame (do_nothing {A = A})
nothing-Tame = record {
  next = λ a r. r;
  ends = λ a r. refl;
  quiet = λ a r. refl;
  keeps = λ a r p. refl;
}

abbrev after_poll : Poller
after_poll = record (begun.poller) {
  store =
      second_gear.Poller.put begun.poller.store 0
        (record (begun.poller.store 0) { revents = record none_event { pollin = true } });
  pollfds = with_revents begun.poller.pollfds (record none_event { pollin = true } ∷ []);
}

after_poll_lem : poll begun.poller one_ready.result ≡ ok (0 ∷ [], after_poll)
unfolding poll second_gear.Poller.get_active_channels second_gear.Poller.activate new_channel
after_poll_lem = refl

turn_lem_example :
    (m : Reactor) × (q : Reactor) × (handle_channels do_nothing do_nothing one_ready.now 0
        (record begun { poller = after_poll })
        (0 ∷ [])
      ≡ ok m)
    × (turn do_nothing do_nothing one_ready begun ≡ ok q)
    × (q.log
        ≡ begun.log
          ++ map handled (due_calls after_poll.store one_ready.now 0 (0 ∷ []))
          ++ map ran m.loop.pending_functors)
turn_lem_example =
    turn_lem do_nothing do_nothing nothing-Tame nothing-Tame one_ready begun after_poll_lem
