-- ===== src/TcpServer/Removal.antt =====
-- `removeConnection` of any connection of the server.
use second_gear.Common.{
  ℕ, zero, suc, ◌≡◌, ◌≢◌, refl, sym, ap, ◌∙◌, inl, inr, false, List, [], ◌∷◌, none, some,
  some-injective, ok, Bool-cases, if-true, if-false, subst, All, All-at, ◌⊎◌, get_elem?,
}
use second_gear.TcpServer.{
  TcpServer, Name, ConnectionPtr, name_eq, erase, remove_connection, queued_destroy, effect,
}
use second_gear.TcpServer.Names.{
  IsValid, Without, Distinct, name_eq_refl, name_eq-eq, erase-Without,
}

-- What `erase` does with the first entry: it goes, or it stays.
erase-cons :
    (e : Name × ConnectionPtr) (es : List (Name × ConnectionPtr)) (name : Name)
    → ((e.0 ≡ name) × (erase (e ∷ es) name ≡ ((erase es name).0, suc (erase es name).1)))
      ⊎ ((e.0 ≢ name) × (erase (e ∷ es) name ≡ (e ∷ (erase es name).0, (erase es name).1)))
erase-cons e es name = elim (Bool-cases (name_eq e.0 name)) [
  | inl same ↦ inl (name_eq-eq _ _ same, if-true _ _ same)
  | inr other ↦ inr (λ h. differs h other, if-false _ _ other)
]
  where
    differs : e.0 ≡ name → name_eq e.0 name ≡ false → ⊥
    differs h other = let r = name_eq_refl e.0 in cc

-- What holds of all entries holds of those that are left.
pub All-erase {ℓ} :
    (P : Name × ConnectionPtr → Type ℓ) (es : List (Name × ConnectionPtr)) (name : Name)
    → All P es
    → All P (erase es name).0
All-erase P [] name h = h
All-erase P (e ∷ es) name h = elim (erase-cons e es name) [
  | inl (same, eq) ↦
      subst (λ (r : List (Name × ConnectionPtr) × ℕ). All P r.0) (sym eq) (All-erase P es name h.1)
  | inr (other, eq) ↦
      subst (λ (r : List (Name × ConnectionPtr) × ℕ). All P r.0) (sym eq)
        (h.0, All-erase P es name h.1)
]

-- An entry of another name stays.
pub erase_keeps :
    (es : List (Name × ConnectionPtr)) (name : Name) (i : ℕ) {e : Name × ConnectionPtr}
    → get_elem? es i ≡ some e
    → e.0 ≢ name
    → (j : ℕ) × (get_elem? (erase es name).0 j ≡ some e)
erase_keeps [] name i at ne = absurd (nothing at)
  where
    nothing : {e : Name × ConnectionPtr} → none ≢ some e
    nothing h = cc
erase_keeps (d ∷ es) name zero at ne = elim (erase-cons d es name) [
  | inl (same, eq) ↦ absurd (ne (ap (λ e. e.0) (sym (some-injective _ _ at)) ∙ same))
  | inr (other, eq) ↦ (0, ap (λ r. get_elem? r.0 0) eq ∙ at)
]
erase_keeps (d ∷ es) name (suc i) at ne =
    let (j, found) = erase_keeps es name i at ne in
    elim (erase-cons d es name) [
      | inl (same, eq) ↦ (j, ap (λ r. get_elem? r.0 j) eq ∙ found)
      | inr (other, eq) ↦ (suc j, ap (λ r. get_elem? r.0 (suc j)) eq ∙ found)
    ]

-- A name stands at one place.
pub Distinct-at :
    (es : List (Name × ConnectionPtr)) (i j : ℕ) {name : Name} {p q : ConnectionPtr}
    → Distinct es
    → get_elem? es i ≡ some (name, p)
    → get_elem? es j ≡ some (name, q)
    → p ≡ q
Distinct-at [] i j h at to = cc
Distinct-at (e ∷ es) zero zero h at to = cc
Distinct-at (e ∷ es) zero (suc j) h at to =
    absurd (All-at (λ d. d.0 ≢ e.0) es j h.0 to (ap (λ d. d.0) (sym (some-injective _ _ at))))
Distinct-at (e ∷ es) (suc i) zero h at to =
    absurd (All-at (λ d. d.0 ≢ e.0) es i h.0 at (ap (λ d. d.0) (sym (some-injective _ _ to))))
Distinct-at (e ∷ es) (suc i) (suc j) h at to = Distinct-at es i j h.1 at to

pub erase_leaves-Without :
    (es : List (Name × ConnectionPtr)) (name : Name) → Without name (erase es name).0
erase_leaves-Without [] name = tt
erase_leaves-Without (e ∷ es) name = elim (erase-cons e es name) [
  | inl (same, eq) ↦
      subst (λ (r : List (Name × ConnectionPtr) × ℕ). Without name r.0) (sym eq)
        (erase_leaves-Without es name)
  | inr (other, eq) ↦
      subst (λ (r : List (Name × ConnectionPtr) × ℕ). Without name r.0) (sym eq)
        (other, erase_leaves-Without es name)
]

erase-Distinct :
    (es : List (Name × ConnectionPtr)) (name : Name) → Distinct es → Distinct (erase es name).0
erase-Distinct [] name h = tt
erase-Distinct (e ∷ es) name h = elim (erase-cons e es name) [
  | inl (same, eq) ↦
      subst (λ (r : List (Name × ConnectionPtr) × ℕ). Distinct r.0) (sym eq)
        (erase-Distinct es name h.1)
  | inr (other, eq) ↦
      subst (λ (r : List (Name × ConnectionPtr) × ℕ). Distinct r.0) (sym eq)
        (All-erase (λ x. x.0 ≢ e.0) es name h.0, erase-Distinct es name h.1)
]

-- A name that is there is there once.
erase_one :
    (es : List (Name × ConnectionPtr)) (i : ℕ) {e : Name × ConnectionPtr}
    → Distinct es
    → get_elem? es i ≡ some e
    → (erase es e.0).1 ≡ 1
erase_one [] i d h = cc
erase_one (x ∷ es) zero {e} d h =
    let same : x ≡ e = some-injective _ _ h in
    elim (erase-cons x es e.0) [
      | inl (s, eq) ↦
          ap (λ (r : List (Name × ConnectionPtr) × ℕ). r.1) eq
          ∙ ap (λ (r : List (Name × ConnectionPtr) × ℕ). suc r.1)
              (erase-Without es e.0 (subst (λ (y : Name × ConnectionPtr). Without y.0 es) same d.0))
      | inr (other, eq) ↦ absurd (other (ap (λ (y : Name × ConnectionPtr). y.0) same))
    ]
erase_one (x ∷ es) (suc i) {e} d h = elim (erase-cons x es e.0) [
  | inl (s, eq) ↦ absurd (All-at (λ y. y.0 ≢ x.0) es i d.0 h (sym s))
  | inr (other, eq) ↦ ap (λ (r : List (Name × ConnectionPtr) × ℕ). r.1) eq ∙ erase_one es i d.1 h
]

-- What holds of an entry and of all that are left without its name holds of all.
pub All-unerase {ℓ} :
    (P : Name × ConnectionPtr → Type ℓ) (es : List (Name × ConnectionPtr)) (i : ℕ)
    {e : Name × ConnectionPtr}
    → Distinct es
    → get_elem? es i ≡ some e
    → P e
    → All P (erase es e.0).0
    → All P es
All-unerase P [] i d h x all = tt
All-unerase P (y ∷ es) zero {e} d h x all =
    let same : y ≡ e = some-injective _ _ h in
    let without =
      erase-Without es e.0 (subst (λ (z : Name × ConnectionPtr). Without z.0 es) same d.0) in
    elim (erase-cons y es e.0) [
      | inr (other, eq) ↦ absurd (other (ap (λ (z : Name × ConnectionPtr). z.0) same))
      | inl (s, eq) ↦ (
        subst P (sym same) x,
        subst (λ (r : List (Name × ConnectionPtr) × ℕ). All P r.0)
            (eq ∙ ap (λ (r : List (Name × ConnectionPtr) × ℕ). (r.0, suc r.1)) without) all,
      )
    ]
All-unerase P (y ∷ es) (suc i) {e} d h x all = elim (erase-cons y es e.0) [
  | inl (s, eq) ↦ absurd (All-at (λ z. z.0 ≢ y.0) es i d.0 h (sym s))
  | inr (other, eq) ↦
      let (first, rest) = subst (λ (r : List (Name × ConnectionPtr) × ℕ). All P r.0) eq all in
      (first, All-unerase P es i d.1 h x rest)
]

-- `removeConnection` of an entry of a server whose names are valid: the assertion holds, the entry goes,
-- and the names stay valid.
pub remove_connection-Removes :
    (print : ℕ → Name) (s : TcpServer) (i : ℕ) {name : Name} {conn : ConnectionPtr}
    → IsValid print s
    → get_elem? s.connections i ≡ some (name, conn)
    → (t : TcpServer) × (remove_connection s conn name ≡ ok t)
      × IsValid print t
      × (t.connections ≡ (erase s.connections name).0)
unfolding remove_connection
remove_connection-Removes print s i {name} {conn} g h = (
  effect (record s { connections = (erase s.connections name).0 }) (queued_destroy conn),
  rw (erase_one s.connections i g.distinct h) refl,
  record {
    named = All-erase _ s.connections name g.named;
    distinct = erase-Distinct s.connections name g.distinct;
  },
  refl,
)
