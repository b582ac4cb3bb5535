-- ===== src/Poller/Entries.antt =====
-- The entries of the poller's table, by the channels that have them.
use second_gear.Common.{
  ℕ, ◌≡◌, ◌≢◌, sym, ap, ◌∙◌, some, some-injective, get_elem?, get_elem?-set_ne,
}
use second_gear.Channel.{Channel}
use second_gear.Poller.{ChannelPtr, PollFd, Poller, fd_of}
use second_gear.Poller.Events.{Registered, Changes}

-- The table has the entry where the channel's index says.
abbrev pub Entry : Poller → ChannelPtr → PollFd → Type 0
Entry s channel e =
    (place : ℕ) × ((s.store channel).index ≡ some place) × (get_elem? s.pollfds place ≡ some e)

-- All channels of the map but one have the entries that they had.
abbrev pub KeepsEntries : Poller → ChannelPtr → Poller → Type 0
KeepsEntries s channel r =
    (x : ChannelPtr) (fd : ℕ) (e : PollFd)
    → x ≢ channel
    → s.channels fd ≡ some x
    → Entry s x e
    → Entry r x e

-- Where channels of a valid poller have one place, they are the same.
pub one_place :
    (s : Poller) (channel x : ChannelPtr) (fd place : ℕ)
    → Registered s channel
    → s.channels fd ≡ some x
    → (s.store channel).index ≡ some place
    → (s.store x).index ≡ some place
    → x ≡ channel
one_place s channel x fd place g mapped here there =
    let l = g.valid.listed fd x mapped in
    let k = g.valid.listed _ channel g.known in
    let places : l.place ≡ k.place =
      some-injective _ _ (sym l.index ∙ there ∙ sym here ∙ k.index) in
    let entries : l.entry ≡ k.entry =
      some-injective _ _ (sym l.found ∙ ap (get_elem? s.pollfds) places ∙ k.found) in
    let fds : fd ≡ (s.store channel).fd =
      sym l.own ∙ ap (λ (p : PollFd). fd_of p.fd) entries ∙ k.own in
    some-injective _ _ (sym mapped ∙ ap s.channels fds ∙ g.known)

pub Changes-KeepsEntries :
    {s r : Poller} {channel : ChannelPtr} {c : Channel}
    → Registered s channel
    → Changes s channel c r
    → KeepsEntries s channel r
Changes-KeepsEntries {s} {r} {channel} g ch x fd e ne mapped (i, index, found) = (
  i,
  ap (λ (y : Channel). y.index) (ch.others x ne) ∙ index,
  ap (λ l. get_elem? l i) ch.pollfds
      ∙ get_elem?-set_ne s.pollfds ch.place i _
          (λ h. ne (one_place s channel x fd i g mapped (ch.index ∙ ap some h) index))
      ∙ found,
)
