-- ===== src/Poller.antt =====
-- Poller.h and Poller.cpp, in the thread of the loop, and the members of Channel that end in
-- `update()`. A `ChannelPtr` is an address, and `store` says which channel lies there. What the
-- system call `poll` did is an argument.
pub mod Valid
pub mod Update
mod Swap
pub mod Remove
pub mod Events
pub mod Asks
pub mod Entries
pub mod Fresh
pub mod Active
mod Marks
pub mod Poll
mod Tests
use second_gear.Common.{
  ℕ, zero, suc, ◌+◌, ◌-◌, Bool, true, false, ◌&&◌, ◌||◌, not, List, [], ◌∷◌, ◌++◌, Option, none,
  some, Result, ok, err, assertion, null_pointer, ◌>>=◌, ◌>>◌, assert, ltb, ◌==◌, if◌then◌else◌,
  length, get_elem?, set, take,
}
use second_gear.Common.Int.{ℤ, pos, negsuc}
use second_gear.Channel.{
  Flags, none_event, any, Channel, is_none_event, reading_enabled, writing_enabled,
  writing_disabled, all_disabled,
}

abbrev pub ChannelPtr : Type 0
ChannelPtr = ℕ

-- `struct pollfd`
pub record PollFd : Type 0 where
  pub fd : ℤ
  pub events : Flags
  pub revents : Flags

-- `-fd - 1` is `negsuc fd`; either form belongs to `fd`.
abbrev pub fd_of : ℤ → ℕ
fd_of (pos n) = n
fd_of (negsuc n) = n

abbrev pub is_ignored : ℤ → Bool
is_ignored (pos n) = false
is_ignored (negsuc n) = true

pub record Poller : Type 0 where
  pub store : ChannelPtr → Channel
  pub pollfds : List PollFd
  pub channels : ℕ → Option ChannelPtr

-- `Poller()`, among the channels of `store`.
abbrev pub create : (ChannelPtr → Channel) → Poller
create store = record { store = store; pollfds = []; channels = λ fd. none }

abbrev pub put {ℓ} : {A : Type ℓ} → (ℕ → A) → ℕ → A → ℕ → A
put f a x b = if a == b then x else f b

-- `channels_.find(fd) != end()` and `channels_[fd] == channel`
abbrev pub registered : Option ChannelPtr → ChannelPtr → Bool
registered none channel = false
registered (some other) channel = other == channel

abbrev pub add_new : Poller → ChannelPtr → Poller
add_new s channel =
    let c = s.store channel in
    record {
      store = put s.store channel (record c { index = some (length s.pollfds) });
      pollfds =
          s.pollfds ++ (record { fd = pos c.fd; events = c.events; revents = none_event } ∷ []);
      channels = put s.channels c.fd (some channel);
    }

-- The entry of an existing channel. As in the source, its descriptor is not set again.
abbrev pub updated : PollFd → Channel → PollFd
updated pfd c = record {
  fd = if is_none_event c then negsuc c.fd else pfd.fd;
  events = c.events;
  revents = none_event;
}

abbrev pub entry_at : List PollFd → ℕ → Result PollFd
entry_at pollfds idx = elim (get_elem? pollfds idx) [ none ↦ err assertion | some pfd ↦ ok pfd ]

pub update_existing : Poller → ChannelPtr → ℕ → Result Poller
update_existing s channel idx = do
  let c = s.store channel
  assert (registered (s.channels c.fd) channel)
  pfd ← entry_at s.pollfds idx
  assert (fd_of pfd.fd == c.fd)
  ok (record s { pollfds = set s.pollfds idx (updated pfd c) })

pub update_channel : Poller → ChannelPtr → Result Poller
update_channel s channel = elim (s.store channel).index [
  | none ↦ ok (add_new s channel)
  | some idx ↦ update_existing s channel idx
]

abbrev pub flag_eq : Bool → Bool → Bool
flag_eq true b = b
flag_eq false b = not b

abbrev pub flags_eq : Flags → Flags → Bool
flags_eq f g =
    flag_eq f.pollin g.pollin
    && (flag_eq f.pollpri g.pollpri
        && (flag_eq f.pollout g.pollout
            && (flag_eq f.pollerr g.pollerr
                && (flag_eq f.pollhup g.pollhup
                    && (flag_eq f.pollnval g.pollnval && flag_eq f.pollrdhup g.pollrdhup)))))

abbrev pub pop_back : List PollFd → List PollFd
pop_back l = take (length l - 1) l

-- The entry at `idx` goes: the last one takes its place, and its channel learns of it.
abbrev pub move_last : Poller → ℕ → Result Poller
move_last s idx = elim (get_elem? s.pollfds (length s.pollfds - 1)) [
  | none ↦ err assertion
  | some last ↦ elim (s.channels (fd_of last.fd)) [
    | none ↦ err null_pointer
    | some other ↦ ok (record s {
      store = put s.store other (record (s.store other) { index = some idx });
      pollfds = pop_back (set s.pollfds idx last);
    })
  ]
]

pub remove_at : Poller → ChannelPtr → ℕ → Result Poller
remove_at s channel idx = do
  let c = s.store channel
  pfd ← entry_at s.pollfds idx
  assert (is_ignored pfd.fd && (fd_of pfd.fd == c.fd && flags_eq pfd.events c.events))
  let erased : Poller = record s { channels = put s.channels c.fd none }
  (if idx == length s.pollfds - 1
      then ok (record erased { pollfds = pop_back s.pollfds })
      else move_last erased idx)

pub remove_channel : Poller → ChannelPtr → Result Poller
remove_channel s channel = do
  let c = s.store channel
  assert (registered (s.channels c.fd) channel)
  assert (is_none_event c)
  elim c.index [ none ↦ err assertion | some idx ↦ remove_at s channel idx ]

-- `revents` of the entries that `poll` wrote, in order.
abbrev pub with_revents : List PollFd → List Flags → List PollFd
with_revents [] revents = []
with_revents (p ∷ ps) [] = p ∷ ps
with_revents (p ∷ ps) (r ∷ rs) = record p { revents = r } ∷ with_revents ps rs

-- The channel of an entry with events, which learns of them.
unfoldable pub activate : Poller → PollFd → Result (ChannelPtr × Poller)
activate s p = elim p.fd [
  | negsuc n ↦ err assertion
  | pos fd ↦ elim (s.channels fd) [
    | none ↦ err assertion
    | some ch ↦
        ok (ch, record s { store = put s.store ch (record (s.store ch) { revents = p.revents }) })
  ]
]

-- The loop of `getActiveChannels`, over the entries left and the events left.
unfoldable pub get_active_channels : Poller → List PollFd → ℕ → Result (List ChannelPtr × Poller)
get_active_channels s [] num_events = ok ([], s)
get_active_channels s (p ∷ ps) zero = ok ([], s)
get_active_channels s (p ∷ ps) (suc num_events) =
    if any p.revents
    then (activate s p >>= λ found.
        get_active_channels found.1 ps num_events >>= λ rest. ok (found.0 ∷ rest.0, rest.1))
    else get_active_channels s ps (suc num_events)

-- What the system call did: it failed or timed out, or it wrote `revents` and returned how many are
-- not zero.
pub data PollResult : Type 0 where
  nothing : PollResult
  ready : (revents : List Flags) → (num_events : ℕ) → PollResult

unfoldable pub poll : Poller → PollResult → Result (List ChannelPtr × Poller)
poll s nothing = ok ([], s)
poll s (ready revents num_events) =
    let polled : Poller = record s { pollfds = with_revents s.pollfds revents } in
    get_active_channels polled polled.pollfds num_events

-- `enableReading()`, `enableWriting()`, `disableWriting()` and `disableAll()`
abbrev changed : (Channel → Channel) → Poller → ChannelPtr → Result Poller
changed f s channel =
    update_channel (record s { store = put s.store channel (f (s.store channel)) }) channel

pub enable_reading : Poller → ChannelPtr → Result Poller
enable_reading = changed reading_enabled

pub enable_writing : Poller → ChannelPtr → Result Poller
enable_writing = changed writing_enabled

pub disable_writing : Poller → ChannelPtr → Result Poller
disable_writing = changed writing_disabled

pub disable_all : Poller → ChannelPtr → Result Poller
disable_all = changed all_disabled
