-- ===== src/Poller/Tests.antt =====
-- The theorems of the poller, where it has channels 0 and 1 for the descriptors 5 and 6.
use second_gear.Common.{
  ℕ, zero, suc, ◌≡◌, refl, some, ok, get_elem?, List, [], ◌∷◌, true, All, inl, inr,
}
use second_gear.Common.Int.{pos, negsuc}
use second_gear.Channel.{
  Channel, Flags, none_event, new_channel, read_event, write_event, reading_enabled, all_disabled,
}
use second_gear.Poller.{
  ChannelPtr, Poller, PollFd, create, add_new, enable_reading, enable_writing, disable_writing,
  disable_all, remove_channel, poll, ready, with_revents,
}
use second_gear.Poller.Valid.{IsValid, create-IsValid}
use second_gear.Poller.Active.{active, count_active}
use second_gear.Poller.Poll.{Told, poll-Told}
use second_gear.Poller.Update.{update_channel-new}
use second_gear.Poller.Events.{Registered, Changes, disable_all-Ignored}
use second_gear.Poller.Asks.{Asked, events-Asks}
use second_gear.Poller.Remove.{Removes, disable_all-Removes}

abbrev store : ChannelPtr → Channel
store zero = reading_enabled (new_channel 5)
store (suc n) = reading_enabled (new_channel 6)

abbrev one : Poller
one = add_new (create store) 0

abbrev two : Poller
two = add_new one 1

two-Registered : Registered two 0
unfolding new_channel
two-Registered =
    let one-IsValid = (update_channel-new (create store) 0 (create-IsValid store) refl refl).1 in
    record { valid = (update_channel-new one 1 one-IsValid refl refl).1; known = refl }

abbrev first_entry : PollFd
first_entry = record { fd = pos 5; events = read_event; revents = none_event }

events-Asks_example :
    Asked two 0 0 read_event (pos 5) (enable_reading two 0)
    × Asked two 0 0 write_event (pos 5) (enable_writing two 0)
    × Asked two 0 0 read_event (pos 5) (disable_writing two 0)
    × Asked two 0 0 none_event (negsuc 5) (disable_all two 0)
unfolding new_channel
events-Asks_example = events-Asks two 0 0 first_entry two-Registered refl refl

disable_all-Ignored_example :
    (off : Poller) × (on : Poller) × (i : ℕ) × (p : PollFd) × (disable_all two 0 ≡ ok off)
    × (enable_reading off 0 ≡ ok on)
    × ((on.store 0).events ≡ read_event)
    × (get_elem? on.pollfds i ≡ some p)
    × (p.events ≡ read_event)
    × (p.fd ≡ negsuc (two.store 0).fd)
disable_all-Ignored_example = disable_all-Ignored two 0 two-Registered

disable_all-Removes_example :
    (off : Poller) × (r : Poller) × (disable_all two 0 ≡ ok off)
    × (remove_channel off 0 ≡ ok r)
    × Changes two 0 (all_disabled (two.store 0)) off
    × Removes off 0 r
disable_all-Removes_example = disable_all-Removes two 0 two-Registered

abbrev input_on_first : List Flags
input_on_first = record none_event { pollin = true } ∷ none_event ∷ []

poll-Told_example :
    (r : Poller) × (poll two
        (ready input_on_first (count_active (with_revents two.pollfds input_on_first)))
      ≡ ok (active two.channels (with_revents two.pollfds input_on_first), r))
    × IsValid r
    × (r.channels ≡ two.channels)
    × (r.pollfds ≡ with_revents two.pollfds input_on_first)
    × All (Told two r) (with_revents two.pollfds input_on_first)
poll-Told_example = poll-Told two input_on_first two-Registered.valid (inr refl, (inl refl, tt))
