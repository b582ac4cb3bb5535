-- ===== src/Loops/Adds.antt =====
-- A new channel of a loop that waits for input.
use second_gear.Common.{ℕ, ◌≡◌, ◌≢◌, refl, sym, ap, ◌∙◌, none, some, ok, ==_iff, subst}
use second_gear.Time.{Callback}
use second_gear.Channel as Made
use second_gear.Channel.{Channel, reading_enabled}
use second_gear.Poller as Polled
use second_gear.Poller.{ChannelPtr, Poller, put}
use second_gear.Poller.Valid.{IsValid, put_self, put_ne}
use second_gear.Poller.Events.{enable_reading-update}
use second_gear.Poller.Fresh.{
  Unmapped, Waits, Opens-Waits, Opens, start, opened, enable_reading-Opens,
}
use second_gear.Loops.{
  ThreadId, LoopPtr, Loop, Process, with_poller, update_channel, new_channel, enable_reading,
}

-- The channel as it is made.
abbrev pub made : ℕ → Callback → Channel
made fd read = record (Made.new_channel fd) { read_callback = some read }

-- The loop has such a channel more, and the rest is as it was.
pub record Adds (w : Process) (this : LoopPtr) (channel : ChannelPtr) (c : Channel) (x : Process)
    : Type 0 where
  pub opens : Opens (w.loops this).poller channel c (x.loops this).poller
  pub thread : (x.loops this).thread_id ≡ (w.loops this).thread_id
  pub wakeup_fd : (x.loops this).wakeup_fd ≡ (w.loops this).wakeup_fd
  pub threads : x.loop_in_this_thread ≡ w.loop_in_this_thread
  pub others : (q : LoopPtr) → q ≢ this → x.loops q ≡ w.loops q

made_index : (fd : ℕ) (read : Callback) → (made fd read).index ≡ none
unfolding Made.new_channel
made_index fd read = refl

pub made_fd : (fd : ℕ) (read : Callback) → (made fd read).fd ≡ fd
unfolding Made.new_channel
made_fd fd read = refl

pub made-Waits :
    {s r : Poller} {channel : ChannelPtr} {fd : ℕ} {read : Callback}
    → Opens s channel (made fd read) r
    → Waits r channel fd read
unfolding Made.new_channel
made-Waits o = Opens-Waits o refl

module _ (w : Process) (tid : ThreadId) (this : LoopPtr) (channel : ChannelPtr) where
  own-update :
      w.owner_loop channel ≡ this
      → (w.loops this).thread_id ≡ tid
      → (s : Poller) → Polled.update_channel (w.loops this).poller channel ≡ ok s
      → update_channel w tid this channel ≡ ok (with_poller w this s)
  unfolding update_channel
  own-update owner thread s e = rw (
    (==_iff (w.owner_loop channel) this).1 owner,
    (==_iff (w.loops this).thread_id tid).1 thread,
    e,
  )

-- `enableReading()` of a channel of the loop, in the thread of the loop, does what the poller does.
abbrev reading : Poller → ChannelPtr → Poller
reading s channel = record s { store = put s.store channel (reading_enabled (s.store channel)) }

abbrev Enables : Process → ThreadId → ChannelPtr → Poller → LoopPtr → Type 0
Enables w tid channel r this =
    (w.loops this).thread_id ≡ tid
    → Polled.enable_reading (w.loops this).poller channel ≡ ok r
    → enable_reading w tid channel
      ≡ ok (with_poller (with_poller w this (reading (w.loops this).poller channel)) this r)

own-Enables :
    (w : Process) (tid : ThreadId) (channel : ChannelPtr) (r : Poller)
    → Enables w tid channel r (w.owner_loop channel)
unfolding enable_reading
own-Enables w tid channel r thread e =
    let this = w.owner_loop channel in
    let s = (w.loops this).poller in
    let l : Loop = record (w.loops this) { poller = reading s channel } in
    let here = put_self w.loops this l in
    own-update (with_poller w this (reading s channel)) tid this channel refl
      (ap (λ (x : Loop). x.thread_id) here ∙ thread) r
      (ap (λ (x : Loop). Polled.update_channel x.poller channel) here
        ∙ sym (enable_reading-update s channel)
        ∙ e)

enables :
    (w : Process) (tid : ThreadId) (this : LoopPtr) (channel : ChannelPtr) (r : Poller)
    → w.owner_loop channel ≡ this
    → Enables w tid channel r this
enables w tid this channel r owner =
    subst (Enables w tid channel r) owner (own-Enables w tid channel r)

module _ (w : Process) (tid : ThreadId) (this : LoopPtr) (channel : ChannelPtr) (fd : ℕ)
    (read : Callback) (mine : (w.loops this).thread_id ≡ tid) (v : IsValid (w.loops this).poller)
    (u : Unmapped (w.loops this).poller channel)
    (free : (w.loops this).poller.channels fd ≡ none) where
  abbrev s : Poller
  s = (w.loops this).poller

  abbrev before : Process
  before = new_channel w this channel fd read

  made_free : s.channels (made fd read).fd ≡ none
  made_free = ap s.channels (made_fd fd read) ∙ free

  abbrev begun : Poller
  begun = start s channel (made fd read) (made_index fd read) v u made_free

  abbrev polled : Poller
  polled = opened s channel (made fd read) (made_index fd read) v u made_free

  before_loop : before.loops this ≡ record (w.loops this) { poller = begun }
  before_loop = put_self w.loops this _

  abbrev after : Process
  after =
      with_poller (with_poller before this (reading (before.loops this).poller channel)) this polled

  after_loop : after.loops this ≡ record (w.loops this) { poller = polled }
  after_loop =
      put_self (with_poller before this (reading (before.loops this).poller channel)).loops this _
      ∙ ap (λ (l : Loop). record l { poller = polled })
          (put_self before.loops this _
            ∙ ap (λ (l : Loop). record l { poller = reading (before.loops this).poller channel })
                before_loop)

  pub enable_reading-Adds :
      (x : Process) × (enable_reading before tid channel ≡ ok x)
      × Adds w this channel (made fd read) x
  enable_reading-Adds =
      let (e, o) =
        enable_reading-Opens s channel (made fd read) (made_index fd read) v u made_free in
      (
        after,
        enables before tid this channel polled (put_self w.owner_loop channel this)
            (ap (λ (l : Loop). l.thread_id) before_loop ∙ mine)
            (ap (λ (l : Loop). Polled.enable_reading l.poller channel) before_loop ∙ e),
        record {
          opens = subst (λ (l : Loop). Opens s channel (made fd read) l.poller) (sym after_loop) o;
          thread = ap (λ (l : Loop). l.thread_id) after_loop;
          wakeup_fd = ap (λ (l : Loop). l.wakeup_fd) after_loop;
          threads = refl;
          others = λ q ne.
              put_ne (with_poller before this (reading (before.loops this).poller channel)).loops
                this _ q ne
              ∙ put_ne before.loops this _ q ne
              ∙ put_ne w.loops this _ q ne;
        },
      )
