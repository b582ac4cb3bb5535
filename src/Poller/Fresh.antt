-- ===== src/Poller/Fresh.antt =====
-- `enableReading()` of a channel that has just been made.
use second_gear.Common.{
  length, get_elem?, ℕ, ◌≡◌, ◌≢◌, sym, ap, ◌∙◌, [], ◌∷◌, ◌++◌, Option, some, none, ok,
}
use second_gear.Common.Int.{pos}
use second_gear.Time.{Callback}
use second_gear.Channel.{Channel, reading_enabled, read_event, none_event}
use second_gear.Poller.{Poller, PollFd, ChannelPtr, put, add_new, enable_reading}
use second_gear.Poller.Valid.{IsValid, put_self, put_ne, get_elem?-snoc_old, get_elem?-snoc_new}
use second_gear.Poller.Entries.{Entry, KeepsEntries}
use second_gear.Poller.Update.{update_channel-new}
use second_gear.Poller.Events.{Registered, enable_reading-update}

-- The map does not name the channel.
abbrev pub Unmapped : Poller → ChannelPtr → Type 0
Unmapped s channel = (fd : ℕ) → s.channels fd ≢ some channel

-- Another channel may be made at an address that the map does not name.
unmapped-IsValid :
    (s : Poller) (channel : ChannelPtr) (c : Channel)
    → IsValid s
    → Unmapped s channel
    → IsValid (record s { store = put s.store channel c })
unmapped-IsValid s channel c v u = record {
  slots = λ i p h.
      let slot = v.slots i p h in
      record {
        owner = slot.owner;
        mapped = slot.mapped;
        index =
            ap (λ (x : Channel). x.index)
              (put_ne s.store channel c _ (λ e. u _ (slot.mapped ∙ ap some e)))
            ∙ slot.index;
      };
  listed = λ fd other h.
      let l = v.listed fd other h in
      let same : put s.store channel c other ≡ s.store other =
        put_ne s.store channel c other (λ e. u fd (h ∙ ap some e)) in
      record {
        fd_eq = ap (λ (x : Channel). x.fd) same ∙ l.fd_eq;
        place = l.place;
        entry = l.entry;
        index = ap (λ (x : Channel). x.index) same ∙ l.index;
        found = l.found;
        own = l.own;
      };
}

-- The entry of a channel that waits for input.
abbrev pub reading_entry : ℕ → PollFd
reading_entry fd = record { fd = pos fd; events = read_event; revents = none_event }

-- The callbacks of a channel but that to read.
abbrev pub other_callbacks : Channel → Option Callback × Option Callback × Option Callback
other_callbacks c = (c.write_callback, c.error_callback, c.close_callback)

-- The channel has been made as `c` and waits for input, and the rest is as it was.
pub record Opens (s : Poller) (channel : ChannelPtr) (c : Channel) (r : Poller) : Type 0 where
  pub registered : Registered r channel
  pub mapped : r.channels c.fd ≡ some channel
  pub fd : (r.store channel).fd ≡ c.fd
  pub events : (r.store channel).events ≡ read_event
  pub callback : (r.store channel).read_callback ≡ c.read_callback
  pub callbacks : other_callbacks (r.store channel) ≡ other_callbacks c
  pub others : (p : ChannelPtr) → p ≢ channel → r.store p ≡ s.store p
  pub channels : (fd : ℕ) → fd ≢ c.fd → r.channels fd ≡ s.channels fd
  pub index : (r.store channel).index ≡ some (length s.pollfds)
  pub pollfds : r.pollfds ≡ s.pollfds ++ (reading_entry c.fd ∷ [])

module _ (s : Poller) (channel : ChannelPtr) (c : Channel) (new : c.index ≡ none) (v : IsValid s)
    (u : Unmapped s channel) (free : s.channels c.fd ≡ none) where
  abbrev pub start : Poller
  start = record s { store = put s.store channel c }

  abbrev waiting : Poller
  waiting = record start { store = put start.store channel (reading_enabled (start.store channel)) }

  waiting-eq : waiting.store channel ≡ reading_enabled c
  waiting-eq = put_self start.store channel _ ∙ ap reading_enabled (put_self s.store channel c)

  waiting_fd : (waiting.store channel).fd ≡ c.fd
  waiting_fd = ap (λ (x : Channel). x.fd) waiting-eq

  abbrev pub opened : Poller
  opened = add_new waiting channel

  pub enable_reading-Opens : (enable_reading start channel ≡ ok opened) × Opens s channel c opened
  enable_reading-Opens =
      let (e, valid, listed) =
        update_channel-new waiting channel
          (unmapped-IsValid start channel _ (unmapped-IsValid s channel c v u) u)
          (ap (λ (x : Channel). x.index) waiting-eq ∙ new) (ap s.channels waiting_fd ∙ free) in
      let mapped : opened.channels c.fd ≡ some channel =
        ap opened.channels (sym waiting_fd) ∙ put_self waiting.channels _ (some channel) in
      let here = put_self waiting.store channel _ in
      (
        enable_reading-update start channel ∙ e,
        record {
          registered = record {
            valid = valid;
            known = ap opened.channels (listed.fd_eq ∙ waiting_fd) ∙ mapped;
          };
          mapped = mapped;
          fd = listed.fd_eq ∙ waiting_fd;
          events = ap (λ (x : Channel). x.events) here ∙ ap (λ (x : Channel). x.events) waiting-eq;
          callback =
              ap (λ (x : Channel). x.read_callback) here
              ∙ ap (λ (x : Channel). x.read_callback) waiting-eq;
          callbacks = ap other_callbacks here ∙ ap other_callbacks waiting-eq;
          others = λ p ne.
              put_ne waiting.store channel _ p ne
              ∙ put_ne start.store channel _ p ne
              ∙ put_ne s.store channel _ p ne;
          channels = λ fd ne. put_ne waiting.channels _ _ fd (λ h. ne (h ∙ waiting_fd));
          index = ap (λ (x : Channel). x.index) here;
          pollfds =
              ap
                (λ (x : Channel).
                  s.pollfds
                  ++ (record { fd = pos x.fd; events = x.events; revents = none_event } ∷ []))
                waiting-eq;
        },
      )

-- The poller has the channel under the descriptor, and it waits for input and calls `read`; its entry in
-- the table, which `poll` is given, asks for input on the descriptor.
pub record Waits (s : Poller) (channel : ChannelPtr) (fd : ℕ) (read : Callback) : Type 0 where
  pub mapped : s.channels fd ≡ some channel
  pub events : (s.store channel).events ≡ read_event
  pub callback : (s.store channel).read_callback ≡ some read
  pub entry : Entry s channel (reading_entry fd)

pub Opens-Waits :
    {s r : Poller} {channel : ChannelPtr} {c : Channel} {read : Callback}
    → Opens s channel c r
    → c.read_callback ≡ some read
    → Waits r channel c.fd read
Opens-Waits {s} {r} o e = record {
  mapped = o.mapped;
  events = o.events;
  callback = o.callback ∙ e;
  entry = (
    length s.pollfds,
    o.index,
    ap (λ l. get_elem? l (length s.pollfds)) o.pollfds ∙ get_elem?-snoc_new s.pollfds _,
  );
}

-- A new entry stands behind the others.
pub Opens-KeepsEntries :
    {s r : Poller} {channel : ChannelPtr} {c : Channel}
    → Opens s channel c r
    → KeepsEntries s channel r
Opens-KeepsEntries {s} o x fd e ne mapped (i, index, found) = (
  i,
  ap (λ (y : Channel). y.index) (o.others x ne) ∙ index,
  ap (λ l. get_elem? l i) o.pollfds ∙ get_elem?-snoc_old s.pollfds _ i found,
)

pub Waits-kept :
    {s r : Poller} {channel other : ChannelPtr} {c : Channel} {fd : ℕ} {read : Callback}
    → Opens s channel c r
    → other ≢ channel
    → fd ≢ c.fd
    → Waits s other fd read
    → Waits r other fd read
Waits-kept o ne apart w = record {
  mapped = o.channels _ apart ∙ w.mapped;
  events = ap (λ (x : Channel). x.events) (o.others _ ne) ∙ w.events;
  callback = ap (λ (x : Channel). x.read_callback) (o.others _ ne) ∙ w.callback;
  entry = Opens-KeepsEntries o _ _ _ ne w.mapped w.entry;
}
