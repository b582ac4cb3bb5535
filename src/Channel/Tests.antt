-- ===== src/Channel/Tests.antt =====
-- A channel with all callbacks set, on an event with several flags.
use second_gear.Common.{◌↔◌, true, some}
use second_gear.Common.Int.{pos}
use second_gear.Channel.{Channel, Call, new_channel, none_event, handle_event}
use second_gear.Channel.Dispatch.{Ordered, Runs, Due, handle_event_lem}

abbrev busy : Channel
busy = record (new_channel 5) {
  revents = record none_event { pollin = true; pollout = true; pollerr = true };
  read_callback = some 1;
  write_callback = some 2;
  error_callback = some 3;
  close_callback = some 4;
}

handle_event_lem_example :
    Ordered (handle_event busy (pos 9)).1
    × ((x : Call) → Runs x (handle_event busy (pos 9)).1 ↔ Due busy (pos 9) x)
handle_event_lem_example = handle_event_lem busy (pos 9)
