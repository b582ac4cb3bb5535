-- ===== src/Channel.antt =====
-- Channel.h and Channel.cpp: a descriptor, the events that it waits for, and its callbacks. A set of
-- `POLL…` flags is a record of Booleans: the source uses no other bits. `update()` is the poller's
-- `update_channel`, so what `enableReading()` and the like do to `events_` stands here, and the whole of
-- them in Poller.
pub mod Dispatch
mod Tests
use second_gear.Common.{
  ℕ, Bool, true, false, ◌&&◌, ◌||◌, not, List, [], ◌∷◌, ◌++◌, Option, none, some, if◌then◌else◌,
}
use second_gear.Time.{Timestamp, Callback}

pub record Flags : Type 0 where
  pub pollin : Bool
  pub pollpri : Bool
  pub pollout : Bool
  pub pollerr : Bool
  pub pollhup : Bool
  pub pollnval : Bool
  pub pollrdhup : Bool

-- `kNoneEvent`, `kReadEvent` and `kWriteEvent`
abbrev pub none_event : Flags
none_event = record {
  pollin = false;
  pollpri = false;
  pollout = false;
  pollerr = false;
  pollhup = false;
  pollnval = false;
  pollrdhup = false;
}

abbrev pub read_event : Flags
read_event = record none_event { pollin = true; pollpri = true }

abbrev pub write_event : Flags
write_event = record none_event { pollout = true }

-- `flags != 0`; the flags are positive, so this is `flags > 0` too
abbrev pub any : Flags → Bool
any f =
    f.pollin
    || (f.pollpri || (f.pollout || (f.pollerr || (f.pollhup || (f.pollnval || f.pollrdhup)))))

-- The index is `none` for -1.
pub record Channel : Type 0 where
  pub fd : ℕ
  pub events : Flags
  pub revents : Flags
  pub index : Option ℕ
  pub event_handling : Bool
  pub read_callback : Option Callback
  pub write_callback : Option Callback
  pub error_callback : Option Callback
  pub close_callback : Option Callback

unfoldable pub new_channel : ℕ → Channel
new_channel fd = record {
  fd = fd;
  events = none_event;
  revents = none_event;
  index = none;
  event_handling = false;
  read_callback = none;
  write_callback = none;
  error_callback = none;
  close_callback = none;
}

abbrev pub is_none_event : Channel → Bool
is_none_event c = not (any c.events)

abbrev pub is_writing : Channel → Bool
is_writing c = c.events.pollout

-- What the four calls do to `events_` before `update()`.
abbrev pub reading_enabled : Channel → Channel
reading_enabled c = record c { events = read_event }

abbrev pub writing_enabled : Channel → Channel
writing_enabled c = record c { events = write_event }

abbrev pub writing_disabled : Channel → Channel
writing_disabled c = record c { events = record (c.events) { pollout = false } }

abbrev pub all_disabled : Channel → Channel
all_disabled c = record c { events = none_event }

-- A callback that `handleEvent` runs.
pub data Call : Type 0 where
  closes : Callback → Call
  errors : Callback → Call
  reads : Callback → Timestamp → Call
  writes : Callback → Call

abbrev pub call_if : Bool → Option Callback → (Callback → Call) → List Call
call_if test none call = []
call_if test (some cb) call = if test then call cb ∷ [] else []

-- The four tests of `handleEvent`, each with the callback that it runs.
abbrev pub close_calls : Channel → List Call
close_calls c = call_if (c.revents.pollhup && not c.revents.pollin) c.close_callback closes

abbrev pub error_calls : Channel → List Call
error_calls c = call_if (c.revents.pollerr || c.revents.pollnval) c.error_callback errors

abbrev pub read_calls : Timestamp → Channel → List Call
read_calls receive_time c =
    call_if (c.revents.pollin || (c.revents.pollpri || c.revents.pollrdhup)) c.read_callback
      (λ cb. reads cb receive_time)

abbrev pub write_calls : Channel → List Call
write_calls c = call_if c.revents.pollout c.write_callback writes

-- The channel afterwards, and the callbacks in the order in which they run, when no callback changes
-- the channel's callbacks or its `revents_`, which only the poller sets.
unfoldable pub handle_event : Channel → Timestamp → Channel × List Call
handle_event c receive_time = (
  record c { event_handling = false },
  close_calls c ++ (error_calls c ++ (read_calls receive_time c ++ write_calls c)),
)
