-- ===== src/Buffer/Fifo.antt =====
-- A buffer against what it stands for: a string of bytes that grows at the back and shrinks at the
-- front. The two run the same calls, and a call that faults ends the run.
use second_gear.Common.{
  ℕ, ◌+◌, ◌≤◌, ◌≡◌, refl, ap, inl, inr, List, [], ◌∷◌, ◌++◌, Result, ok, err, Fault, assertion,
  arith, length, drop, leb, if◌then◌else◌, le→leb, lt→leb, ◌>>=◌,
}
use second_gear.Buffer.{
  Buffer, max_size, extra_size, writable_bytes, append, retrieve, retrieve_all, retrieve_as_string,
  read_fd, got,
}
use second_gear.Buffer.Valid.{IsValid, contents, peeked-contents, retrieve_all-IsValid}
use second_gear.Buffer.Write.{append-Appends}
use second_gear.Buffer.Read.{retrieve-Drops, read_fd-Reads}

pub data Op : Type 0 where
  puts : List ℕ → Op  -- append
  fills : List ℕ → Op  -- readFd, with what the system call reads
  drops : ℕ → Op  -- retrieve
  clears : Op  -- retrieveAll
  takes : Op  -- retrieveAsString

-- What the caller sees of a call.
pub data Reply : Type 0 where
  done : Reply
  text : List ℕ → Reply
  fault : Fault → Reply

unfoldable pub step : Buffer → Op → Result (Buffer × Reply)
step b (puts str) = do b' ← append b str; ok (b', done)
step b (fills str) = do r ← read_fd b (got str); ok (r.buffer, done)
step b (drops len) = do b' ← retrieve b len; ok (b', done)
step b clears = ok (retrieve_all b, done)
step b takes = let (str, b') = retrieve_as_string b in ok (b', text str)

-- The replies of a run.
unfoldable pub run : Buffer → List Op → List Reply
run b [] = []
run b (op ∷ ops) = elim (step b op) [ ok (b', reply) ↦ reply ∷ run b' ops | err f ↦ fault f ∷ [] ]

unfoldable pub spec_step : List ℕ → Op → Result (List ℕ × Reply)
spec_step q (puts str) = ok (q ++ str, done)
spec_step q (fills str) = ok (q ++ str, done)
spec_step q (drops len) = if leb len (length q) then ok (drop len q, done) else err assertion
spec_step q clears = ok ([], done)
spec_step q takes = ok ([], text q)

unfoldable pub spec_run : List ℕ → List Op → List Reply
spec_run q [] = []
spec_run q (op ∷ ops) = elim (spec_step q op) [
  | ok (q', reply) ↦ reply ∷ spec_run q' ops
  | err f ↦ fault f ∷ []
]

-- What a call needs: the end of what it adds stays within the maximum of a vector, and `readv` reads no
-- more than the two regions that it is given hold.
abbrev pub Room : Buffer → Op → Type 0
Room b (puts str) = b.writer_index + length str ≤ max_size
Room b (fills str) =
    (length str ≤ writable_bytes b + extra_size) × (b.writer_index + length str ≤ max_size)
Room b _ = Unit {0}

-- Each call of the run finds what it needs.
unfoldable pub Fits : Buffer → List Op → Type 0
Fits b [] = Unit {0}
Fits b (op ∷ ops) =
    Room b op × (elim (step b op) [ ok (b', reply) ↦ Fits b' ops | err f ↦ Unit {0} ])

-- One call of a buffer, against the call of its contents.
abbrev Agrees : Result (Buffer × Reply) → Result (List ℕ × Reply) → Type 0
Agrees (ok (b, r)) s = IsValid b × (s ≡ ok (contents b, r))
Agrees (err f) s = s ≡ err f

step-Agrees :
    (b : Buffer) (op : Op) → IsValid b → Room b op → Agrees (step b op) (spec_step (contents b) op)
unfolding step spec_step retrieve_all retrieve_as_string
step-Agrees b (puts str) v f = elim (append-Appends b str v (omega arith)) [
  | inl (s, e, valid, content, low) ↦ rw e (valid, rw content)
  | inr (e, over) ↦ absurd (omega arith)
]
step-Agrees b (fills str) v f = elim (read_fd-Reads b str v f.0) [
  | inl (s, e, valid, content, low) ↦ rw e (valid, rw content)
  | inr (e, over) ↦ absurd (omega arith)
]
step-Agrees b (drops len) v f = elim (retrieve-Drops b len v) [
  | inl (s, e, valid, content, enough, same) ↦
      rw e (valid, rw (le→leb len (length (contents b)) enough, content))
  | inr (e, short) ↦ rw (e, lt→leb len (length (contents b)) short)
]
step-Agrees b clears v f = (retrieve_all-IsValid v, refl)
step-Agrees b takes v f = (retrieve_all-IsValid v, rw (peeked-contents v))

-- No run of `append`, `readFd`, `retrieve`, `retrieveAll` and `retrieveAsString` tells a valid buffer
-- from the string of its contents: the replies are those of the string, and the run ends at the same
-- failed assertion. At each call of the run, what `append` or `readFd` adds behind the writer stays within
-- the maximum of a vector, and `readFd` reads no more than the writable bytes and `extrabuf` hold.
pub run_refines :
    (b : Buffer) (ops : List Op) → IsValid b → Fits b ops → run b ops ≡ spec_run (contents b) ops
unfolding run spec_run Fits
run_refines b [] v f = refl
run_refines b (op ∷ ops) v f =
    go (step b op) (spec_step (contents b) op) (step-Agrees b op v f.0) f.1
      (λ b' v' f'. run_refines b' ops v' f')
  where
    go :
        (r : Result (Buffer × Reply)) (s : Result (List ℕ × Reply))
        → Agrees r s
        → (elim r as (λ x. Type 0) [ ok (b', reply) ↦ Fits b' ops | err f ↦ Unit {0} ])
        → ((b' : Buffer) → IsValid b' → Fits b' ops → run b' ops ≡ spec_run (contents b') ops)
        → (elim r [ ok (b', reply) ↦ reply ∷ run b' ops | err f ↦ fault f ∷ [] ])
          ≡ (elim s [ ok (q', reply) ↦ reply ∷ spec_run q' ops | err f ↦ fault f ∷ [] ])
    go (ok (b', reply)) s (v', e) more ih = rw e (ap (◌∷◌ reply) (ih b' v' more))
    go (err f) s e more ih = rw e
