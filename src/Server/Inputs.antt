-- ===== src/Server/Inputs.antt =====
-- What is read on connections of a server in a turn, and what becomes of each.
use second_gear.Common.{
  ℕ, suc, ◌+◌, ◌≤◌, ◌<◌, ◌≡◌, ◌≢◌, refl, sym, ap, ◌∙◌, subst, ◌⊎◌, inl, inr, List, [], ◌∷◌, ◌++◌,
  some, All, All-map, length, get_elem?, ℕ_discrete,
}
use second_gear.Buffer.{ReadResult, got, failed, max_size, writable_bytes, extra_size}
use second_gear.Buffer.Valid.{contents}
use second_gear.TcpConnection.{TcpConnection}
use second_gear.TcpConnection.Close.{bytes_of}
use second_gear.TcpServer.{ConnectionPtr}
use second_gear.Server.{Server, MessageCallback, Input}
use second_gear.Time.{Timestamp}
use second_gear.Server.Read.{Connected, Leaves, Heard}

-- There is room for what is read on a connection.
abbrev pub Room : TcpConnection → ReadResult → Type 0
Room c result = length (bytes_of result) ≤ writable_bytes c.input_buffer + extra_size

-- The inputs are of different connections of the map, with room for each.
abbrev pub Fits : Server → List Input → Type 0
Fits s [] = Unit
Fits s (i ∷ is) =
    Connected s i.conn × Room (s.peers i.conn) i.result × All (λ j. j.conn ≢ i.conn) is × Fits s is

-- The buffer of an input would have to grow beyond its maximum.
abbrev pub TooMuch : TcpConnection → ReadResult → Type 0
TooMuch c result = max_size < c.input_buffer.writer_index + length (bytes_of result)

abbrev pub OverflowsIn : Server → List Input → Type 0
OverflowsIn s [] = ⊥
OverflowsIn s (i ∷ is) = TooMuch (s.peers i.conn) i.result ⊎ OverflowsIn s is

-- Nothing has happened to a connection.
pub record Same (s t : Server) (q : ConnectionPtr) : Type 0 where
  pub peer : t.peers q ≡ s.peers q
  pub connected : Connected s q → Connected t q
  pub out : All (λ e. e.1 ≢ q) s.tcp.connections → All (λ e. e.1 ≢ q) t.tcp.connections

pub Leaves-Same : {s u : Server} {p q : ConnectionPtr} → Leaves s u p → q ≢ p → Same s u q
Leaves-Same {q = q} l ne = record {
  peer = l.others q ne;
  connected = l.connected q ne;
  out = l.out q;
}

pub Same-trans : {s t u : Server} {q : ConnectionPtr} → Same s t q → Same t u q → Same s u q
Same-trans a b = record {
  peer = b.peer ∙ a.peer;
  connected = λ k. b.connected (a.connected k);
  out = λ h. b.out (a.out h);
}

pub input :
    (s t : Server) (q : ConnectionPtr)
    → t.peers q ≡ s.peers q
    → (t.peers q).input_buffer ≡ (s.peers q).input_buffer
input s t q e = ap (λ (c : TcpConnection). c.input_buffer) e

-- What has become of a connection stays so, and comes from what it was before.
pub Same-Heard :
    (m : MessageCallback) (s t u : Server) (q : ConnectionPtr) (now : Timestamp) (r : ReadResult)
    → Same t u q
    → Heard m s t q now r
    → Heard m s u q now r
Same-Heard m s t u q now (failed errno) a (k, e) = (a.connected k, input t u q a.peer ∙ e)
Same-Heard m s t u q now (got []) a out = a.out out
Same-Heard m s t u q now (got (b ∷ bs)) a (k, (x, v, e, f)) =
    (a.connected k, (x, v, e, input t u q a.peer ∙ f))

pub Heard-Same :
    (m : MessageCallback) (s t u : Server) (q : ConnectionPtr) (now : Timestamp) (r : ReadResult)
    → t.peers q ≡ s.peers q
    → Heard m t u q now r
    → Heard m s u q now r
Heard-Same m s t u q now (failed errno) same (k, e) = (k, e ∙ input s t q same)
Heard-Same m s t u q now (got []) same out = out
Heard-Same m s t u q now (got (b ∷ bs)) same (k, (x, v, e, f)) =
    (k, (x, v, e ∙ ap (λ l. contents l ++ (b ∷ bs)) (input s t q same), f))

pub Leaves-Fits :
    {s u : Server} {p : ConnectionPtr} (is : List Input)
    → Leaves s u p
    → All (λ j. j.conn ≢ p) is
    → Fits s is
    → Fits u is
Leaves-Fits [] l apart fits = tt
Leaves-Fits (i ∷ is) l apart (k, room, others, fits) = (
  l.connected i.conn apart.0 k,
  subst (λ c. Room c i.result) (sym (l.others i.conn apart.0)) room,
  others,
  Leaves-Fits is l apart.1 fits,
)

pub Leaves-OverflowsIn :
    {s u : Server} {p : ConnectionPtr} (is : List Input)
    → Leaves s u p
    → All (λ j. j.conn ≢ p) is
    → OverflowsIn u is
    → OverflowsIn s is
Leaves-OverflowsIn [] l apart over = over
Leaves-OverflowsIn (i ∷ is) l apart (inl over) =
    inl (subst (λ c. TooMuch c i.result) (l.others i.conn apart.0) over)
Leaves-OverflowsIn (i ∷ is) l apart (inr over) = inr (Leaves-OverflowsIn is l apart.1 over)

-- What has become of all the connections.
abbrev pub HeardAll : MessageCallback → Server → Server → List Input → Type 0
HeardAll m s t = All (λ i. Heard m s t i.conn i.receive_time i.result)

-- One of the inputs is of the connection.
abbrev pub Named : ConnectionPtr → List Input → Type 0
Named q [] = ⊥
Named q (i ∷ is) = (i.conn ≡ q) ⊎ Named q is

pub named : (q : ConnectionPtr) (is : List Input) → Named q is ⊎ All (λ j. j.conn ≢ q) is
named q [] = inr tt
named q (i ∷ is) = elim (ℕ_discrete i.conn q) [
  | yes e ↦ inl (inl e)
  | no ne ↦ elim (named q is) [ inl h ↦ inl (inr h) | inr others ↦ inr (ne, others) ]
]

-- A connection of the map is one of the inputs', or it is there still and as it was.
abbrev pub Quiet : Server → Server → List Input → ConnectionPtr → Type 0
Quiet s t is q = Named q is ⊎ (Connected t q × (t.peers q ≡ s.peers q))

pub All-places {ℓ} : {T : Type ℓ} (xs : List T) → All (λ x. (i : ℕ) × (get_elem? xs i ≡ some x)) xs
All-places [] = tt
All-places (x ∷ xs) = (
  (0, refl),
  All-map (λ y. (i : ℕ) × (get_elem? xs i ≡ some y))
      (λ y. (i : ℕ) × (get_elem? (x ∷ xs) i ≡ some y)) xs (λ y (i, at). (suc i, at))
      (All-places xs),
)
