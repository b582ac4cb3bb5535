-- ===== src/TcpConnection/Open.antt =====
-- A connection between `connectEstablished` and `connectDestroyed`: its invariant, and the stream of
-- bytes that it was given to send.
use second_gear.Common.{
  ℕ, ◌≤◌, ◌≡◌, refl, sym, ap, ◌∙◌, Bool, true, false, List, [], ◌∷◌, ◌++◌, append-nil, append_assoc,
  length, arith,
}
use second_gear.Poller.Events.{Registered}
use second_gear.Buffer.{Buffer, max_size, readable_bytes}
use second_gear.Buffer.Valid
use second_gear.Buffer.Valid.{contents, sizes_lem}
use second_gear.TcpConnection.{
  TcpConnection, StateE, Effect, connection_called, message_called, close_called, wrote, shut_write,
  queued_send, queued_shutdown, effect, channel_writing, WriteResult, write_failed, took,
}

-- The bytes that the kernel has taken.
abbrev pub written : List Effect → List ℕ
written [] = []
written (connection_called ∷ es) = written es
written (message_called t ∷ es) = written es
written (close_called ∷ es) = written es
written (wrote bs ∷ es) = bs ++ written es
written (shut_write ∷ es) = written es
written (queued_send ∷ es) = written es
written (queued_shutdown ∷ es) = written es

-- The bytes that the kernel has taken, and those that still wait.
abbrev pub stream : TcpConnection → List ℕ
stream c = written c.effects ++ contents c.output_buffer

-- The poller knows the channel, the buffers are valid, and the channel waits to write while there are
-- bytes left.
pub record IsOpen (c : TcpConnection) : Type 0 where
  pub registered : Registered c.poller c.channel
  pub input : second_gear.Buffer.Valid.IsValid c.input_buffer
  pub output : second_gear.Buffer.Valid.IsValid c.output_buffer
  pub flushed : channel_writing c ≡ false → contents c.output_buffer ≡ []

pub written-append : (es fs : List Effect) → written (es ++ fs) ≡ written es ++ written fs
written-append [] fs = refl
written-append (connection_called ∷ es) fs = written-append es fs
written-append (message_called t ∷ es) fs = written-append es fs
written-append (close_called ∷ es) fs = written-append es fs
written-append (wrote bs ∷ es) fs =
    ap (λ l. bs ++ l) (written-append es fs) ∙ sym (append_assoc bs (written es) (written fs))
written-append (shut_write ∷ es) fs = written-append es fs
written-append (queued_send ∷ es) fs = written-append es fs
written-append (queued_shutdown ∷ es) fs = written-append es fs

pub written-wrote :
    (es : List Effect) (bs : List ℕ) → written (es ++ (wrote bs ∷ [])) ≡ written es ++ bs
written-wrote es bs = written-append es _ ∙ ap (λ l. written es ++ l) (append-nil bs)

-- `write` takes no more than it is given.
abbrev pub AtMost : WriteResult → ℕ → Type 0
AtMost (write_failed errno) size = Unit
AtMost (took n) size = n ≤ size

nil-length : (bs : List ℕ) → length bs ≡ 0 → bs ≡ []
nil-length [] h = refl
nil-length (b ∷ bs) h = absurd (omega arith)

-- No byte is readable just when the contents are empty.
pub readable_bytes-nil :
    {b : Buffer} → second_gear.Buffer.Valid.IsValid b → readable_bytes b ≡ 0 → contents b ≡ []
readable_bytes-nil v h = nil-length _ (sym (sizes_lem v).0 ∙ h)

pub true-false : (b : Bool) → b ≡ true → b ≡ false → ⊥
true-false b h g = cc

-- An effect changes nothing of the invariant.
pub effect-IsOpen : (c : TcpConnection) (e : Effect) → IsOpen c → IsOpen (effect c e)
effect-IsOpen c e g = record {
  registered = g.registered;
  input = g.input;
  output = g.output;
  flushed = g.flushed;
}

-- Nor does the state.
pub state-IsOpen : (c : TcpConnection) (s : StateE) → IsOpen c → IsOpen (record c { state = s })
state-IsOpen c s g = record {
  registered = g.registered;
  input = g.input;
  output = g.output;
  flushed = g.flushed;
}
