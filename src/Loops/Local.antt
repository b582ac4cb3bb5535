-- ===== src/Loops/Local.antt =====
-- What a call of the poller through a loop changes.
use second_gear.Common.{
  ℕ, ◌≡◌, ◌≢◌, refl, sym, ap, ◌∙◌, Bool, true, false, Result, ok, err, ◌>>=◌, ◌>>◌, assert, ◌==◌,
  ==_iff, subst, ℕ_discrete,
}
use second_gear.Time.{Callback}
use second_gear.Poller.{ChannelPtr, Poller}
use second_gear.Poller.Valid.{put_self, put_ne}
use second_gear.Loops.{
  ThreadId, LoopPtr, Loop, Process, with_poller, update_channel, remove_channel, new_channel,
  enable_reading,
}

-- At most the loop `this` has changed, and it belongs to the thread that it belonged to.
pub record IsLocal (this : LoopPtr) (w x : Process) : Type 0 where
  pub others : (q : LoopPtr) → q ≢ this → x.loops q ≡ w.loops q
  pub pointers : x.loop_in_this_thread ≡ w.loop_in_this_thread
  pub owner : (q : LoopPtr) → (x.loops q).thread_id ≡ (w.loops q).thread_id

pub IsLocal-trans :
    {this : LoopPtr} {w x y : Process} → IsLocal this w x → IsLocal this x y → IsLocal this w y
IsLocal-trans a b = record {
  others = λ q ne. b.others q ne ∙ a.others q ne;
  pointers = b.pointers ∙ a.pointers;
  owner = λ q. b.owner q ∙ a.owner q;
}

with_poller-IsLocal :
    (w : Process) (this : LoopPtr) (s : Poller) → IsLocal this w (with_poller w this s)
with_poller-IsLocal w this s = record {
  others = λ q ne. put_ne w.loops this _ q ne;
  pointers = refl;
  owner = λ q. elim (ℕ_discrete q this) [
    | yes h ↦
        subst (λ a. ((with_poller w this s).loops a).thread_id ≡ (w.loops a).thread_id) (sym h)
          (ap (λ (l : Loop). l.thread_id) (put_self w.loops this _))
    | no ne ↦ ap (λ (l : Loop). l.thread_id) (put_ne w.loops this _ q ne)
  ];
}

new_channel-IsLocal :
    (w : Process) (this : LoopPtr) (channel : ChannelPtr) (fd : ℕ) (read : Callback)
    → IsLocal this w (new_channel w this channel fd read)
new_channel-IsLocal w this channel fd read =
    let l = with_poller-IsLocal w this _ in
    record { others = l.others; pointers = l.pointers; owner = l.owner }

-- Two assertions and a call of the poller that have gone well.
guarded :
    {x : Process} (a b : Bool) (r : Result Poller) (f : Poller → Process)
    → (assert a >> (assert b >> (r >>= λ s. ok (f s)))) ≡ ok x
    → (b ≡ true) × (s : Poller) × (f s ≡ x)
guarded true true (ok s) f h = (refl, s, same h)
  where
    same : {y z : Process} → ok y ≡ ok z → y ≡ z
    same k = cc
guarded true true (err e) f h = cc
guarded true false r f h = cc
guarded false b r f h = cc

-- What a call of the poller through the loop does.
abbrev pub Through : ThreadId → LoopPtr → Process → Process → Type 0
Through tid this w x = ((w.loops this).thread_id ≡ tid) × IsLocal this w x

guarded-Through :
    {x : Process} (w : Process) (tid : ThreadId) (this : LoopPtr) (a : Bool) (r : Result Poller)
    → (assert a
        >> (assert ((w.loops this).thread_id == tid) >> (r >>= λ s. ok (with_poller w this s))))
      ≡ ok x
    → Through tid this w x
guarded-Through w tid this a r h =
    let (mine, s, e) = guarded a _ r (with_poller w this) h in
    (
      (==_iff (w.loops this).thread_id tid).0 mine,
      subst (IsLocal this w) e (with_poller-IsLocal w this s),
    )

pub update_channel-Through :
    {x : Process} (w : Process) (tid : ThreadId) (this : LoopPtr) (channel : ChannelPtr)
    → update_channel w tid this channel ≡ ok x
    → Through tid this w x
unfolding update_channel
update_channel-Through w tid this channel h = guarded-Through w tid this _ _ h

pub remove_channel-Through :
    {x : Process} (w : Process) (tid : ThreadId) (this : LoopPtr) (channel : ChannelPtr)
    → remove_channel w tid this channel ≡ ok x
    → Through tid this w x
unfolding remove_channel
remove_channel-Through w tid this channel h = guarded-Through w tid this _ _ h

pub enable_reading-Through :
    {x : Process} (w : Process) (tid : ThreadId) (channel : ChannelPtr)
    → enable_reading w tid channel ≡ ok x
    → Through tid (w.owner_loop channel) w x
unfolding enable_reading
enable_reading-Through w tid channel h =
    let l = with_poller-IsLocal w (w.owner_loop channel) _ in
    let (mine, m) = update_channel-Through _ tid (w.owner_loop channel) channel h in
    (sym (l.owner (w.owner_loop channel)) ∙ mine, IsLocal-trans l m)

-- A new channel of the loop that waits for input.
pub added-IsLocal :
    {x : Process} (w : Process) (tid : ThreadId) (this : LoopPtr) (channel : ChannelPtr) (fd : ℕ)
    (read : Callback)
    → enable_reading (new_channel w this channel fd read) tid channel ≡ ok x
    → IsLocal this w x
added-IsLocal {x = x} w tid this channel fd read h =
    IsLocal-trans (new_channel-IsLocal w this channel fd read) (
      subst (λ p. IsLocal p (new_channel w this channel fd read) x)
        (put_self w.owner_loop channel this) (enable_reading-Through _ tid channel h).1)
