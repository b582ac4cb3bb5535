-- ===== src/Poller/Swap/Entries.antt =====
-- The entries of the other channels when one goes.
use second_gear.Common.{
  ℕ, ◌-◌, ◌≡◌, ◌≢◌, sym, ap, ◌∙◌, some, some-injective, length, get_elem?, ℕ_discrete,
}
use second_gear.Channel.{Channel}
use second_gear.Poller.{ChannelPtr, PollFd, fd_of, Poller}
use second_gear.Poller.Valid.{get_elem?-lt, take-get_elem?}
use second_gear.Poller.Events.{Registered}
use second_gear.Poller.Entries.{KeepsEntries, one_place}
use second_gear.Poller.Swap.{popped, moved, moved_index, end, stays, kept, filled, before_last}

module _ (s : Poller) (channel : ChannelPtr) (g : Registered s channel) (idx : ℕ) (pfd : PollFd)
    (index : (s.store channel).index ≡ some idx) (found : get_elem? s.pollfds idx ≡ some pfd)
    (own : fd_of pfd.fd ≡ (s.store channel).fd) where
  -- No other channel of the map has the place of the one that goes.
  elsewhere :
      (x : ChannelPtr) (fd i : ℕ)
      → x ≢ channel
      → s.channels fd ≡ some x
      → (s.store x).index ≡ some i
      → i ≢ idx
  elsewhere x fd i ne mapped there e =
      ne (one_place s channel x fd idx g mapped index (there ∙ ap some e))

  pub popped-KeepsEntries :
      (at_end : idx ≡ length s.pollfds - 1)
      → KeepsEntries s channel (popped s channel g idx pfd index found own at_end)
  popped-KeepsEntries at_end x fd e ne mapped (i, there, at) = (
    i,
    there,
    take-get_elem? (length s.pollfds - 1) s.pollfds i (
          before_last i (length s.pollfds) (get_elem?-lt s.pollfds i at)
            (λ h. elsewhere x fd i ne mapped there (h ∙ sym at_end)))
        ∙ at,
  )

  -- The channel whose entry has moved has it at its new index.
  pub moved-KeepsEntries :
      (inside : idx ≢ length s.pollfds - 1) (last : PollFd)
      (at_end : get_elem? s.pollfds (length s.pollfds - 1) ≡ some last)
      → KeepsEntries s channel (moved s channel g idx pfd index found own inside last at_end)
  moved-KeepsEntries inside last at_end x fd e ne mapped (i, there, at) =
      elim (ℕ_discrete i (length s.pollfds - 1)) [
        | no before ↦ (
          i,
          ap (λ (c : Channel). c.index)
                (stays s channel g idx pfd index found own inside last at_end x i there before)
              ∙ there,
          kept s channel g idx pfd index found own inside last at_end i
              (elsewhere x fd i ne mapped there) before at,
        )
        | yes h ↦
            let ends = end s channel g idx pfd index found own inside last at_end in
            let itself : x ≡ ends.owner =
              one_place s ends.owner x fd i
                (record {
                  valid = g.valid;
                  known =
                      ap s.channels (g.valid.listed _ ends.owner ends.mapped).fd_eq ∙ ends.mapped;
                })
                mapped (ends.index ∙ ap some (sym h)) there in
            let same : last ≡ e =
              some-injective _ _ (sym at_end ∙ ap (get_elem? s.pollfds) (sym h) ∙ at) in
            (
              idx,
              ap
                    (λ q.
                      ((moved s channel g idx pfd index found own inside last at_end).store
                        q).index)
                    itself
                  ∙ moved_index s channel g idx pfd index found own inside last at_end,
              filled s channel g idx pfd index found own inside last at_end ∙ ap some same,
            )
      ]
