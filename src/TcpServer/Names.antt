-- ===== src/TcpServer/Names.antt =====
-- `newConnection` and `removeConnection`: the names of connections.
use second_gear.Common.{
  ℕ, suc, ◌+◌, ◌<◌, ◌≡◌, ◌≢◌, refl, sym, ap, ap₂, ◌∙◌, inl, inr, true, false, ◌&&◌, List, [], ◌∷◌,
  ◌++◌, ok, arith, ◌==◌, ==_iff, Bool-cases, if-true, subst, All,
}
use second_gear.TcpServer.{
  TcpServer, Name, ConnectionPtr, name_eq, erase, assign, create, conn_name, new_connection,
  remove_connection, established, queued_destroy, effect,
}

pub name_eq_refl : (a : Name) → name_eq a a ≡ true
name_eq_refl [] = refl
name_eq_refl (x ∷ xs) = rw ((==_iff x x).1 refl) (name_eq_refl xs)

pub name_eq-eq : (a b : Name) → name_eq a b ≡ true → a ≡ b
name_eq-eq [] [] h = refl
name_eq-eq [] (y ∷ ys) h = cc
name_eq-eq (x ∷ xs) [] h = cc
name_eq-eq (x ∷ xs) (y ∷ ys) h = elim (Bool-cases (x == y)) [
  | inl same ↦ ap₂ (λ u us. u ∷ us) ((==_iff x y).0 same) (name_eq-eq xs ys (rw_of same h))
  | inr apart ↦ cc
]
  where
    rw_of : (x == y) ≡ true → ((x == y) && name_eq xs ys) ≡ true → name_eq xs ys ≡ true
    rw_of same g = cc

pub name_eq-ne : (a b : Name) → a ≢ b → name_eq a b ≡ false
name_eq-ne a b h = elim (Bool-cases (name_eq a b)) [
  | inl same ↦ absurd (h (name_eq-eq a b same))
  | inr e ↦ e
]

-- No key is the name.
abbrev pub Without : Name → List (Name × ConnectionPtr) → Type 0
Without name = All (λ e. e.0 ≢ name)

pub erase-Without :
    (es : List (Name × ConnectionPtr)) (name : Name) → Without name es → erase es name ≡ (es, 0)
erase-Without [] name h = refl
erase-Without (e ∷ es) name h = rw (erase-Without es name h.1, name_eq-ne e.0 name h.0) refl

append-injective : (a : Name) {b c : Name} → a ++ b ≡ a ++ c → b ≡ c
append-injective [] h = h
append-injective (x ∷ a) h = append-injective a cc

-- Each connection has the name of an earlier number, and no two have the same.
abbrev pub Distinct : List (Name × ConnectionPtr) → Type 0
Distinct [] = Unit
Distinct (e ∷ es) = Without e.0 es × Distinct es

pub record IsValid (print : ℕ → Name) (s : TcpServer) : Type 0 where
  pub named :
      All (λ e. (i : ℕ) × (i < s.next_conn_id) × (e.0 ≡ conn_name print s.name i)) s.connections
  pub distinct : Distinct s.connections

pub create-IsValid : (print : ℕ → Name) (name : Name) → IsValid print (create name)
create-IsValid print name = record { named = tt; distinct = tt }

-- `print` of a number, as `%d` does it: different for different numbers.
module _ (print : ℕ → Name) (print-injective : (i j : ℕ) → print i ≡ print j → i ≡ j) where
  conn_name-injective :
      (name : Name) (i j : ℕ) → conn_name print name i ≡ conn_name print name j → i ≡ j
  conn_name-injective name i j h =
      print-injective i j (append-injective (35 ∷ []) (append-injective name h))

  fresh-Without :
      (name : Name) (n : ℕ) (es : List (Name × ConnectionPtr))
      → All (λ e. (i : ℕ) × (i < n) × (e.0 ≡ conn_name print name i)) es
      → Without (conn_name print name n) es
  fresh-Without name n [] h = tt
  fresh-Without name n (e ∷ es) ((i, lt, same), h) = (
    λ clash. below i n lt (conn_name-injective name i n (sym same ∙ clash)),
    fresh-Without name n es h,
  )
    where
      below : (i n : ℕ) → i < n → i ≢ n
      below i n lt e = omega arith

  later-named :
      (name : Name) (n : ℕ) (es : List (Name × ConnectionPtr))
      → All (λ e. (i : ℕ) × (i < n) × (e.0 ≡ conn_name print name i)) es
      → All (λ e. (i : ℕ) × (i < n + 1) × (e.0 ≡ conn_name print name i)) es
  later-named name n [] h = tt
  later-named name n (e ∷ es) ((i, lt, same), h) = ((i, omega arith, same), later-named name n es h)

  module _ (s : TcpServer) (conn : ConnectionPtr) (g : IsValid print s) where
    abbrev new_name : Name
    new_name = conn_name print s.name s.next_conn_id

    fresh_name : Without new_name s.connections
    fresh_name = fresh-Without s.name s.next_conn_id s.connections g.named

    -- `newConnection` of a server whose connections have the names of earlier numbers, each another,
    -- when the printed form of numbers tells them apart: the new connection has a name that no other has,
    -- it replaces none, it is established, and the names stay so.
    pub new_connection-IsValid :
        ((new_connection print s conn).connections ≡ (new_name, conn) ∷ s.connections)
        × ((new_connection print s conn).effects ≡ s.effects ++ (established conn ∷ []))
        × Without new_name s.connections
        × IsValid print (new_connection print s conn)
    unfolding new_connection
    new_connection-IsValid =
        let kept : assign s.connections new_name conn ≡ (new_name, conn) ∷ s.connections =
          ap (λ r. (new_name, conn) ∷ r.0) (erase-Without s.connections new_name fresh_name) in
        (
          kept,
          refl,
          fresh_name,
          record {
            named =
                subst
                  (All (λ e. (i : ℕ) × (i < s.next_conn_id + 1) × (e.0 ≡ conn_name print s.name i)))
                  (sym kept)
                  (
                    (s.next_conn_id, omega arith, refl),
                    later-named s.name s.next_conn_id s.connections g.named,
                  );
            distinct = subst Distinct (sym kept) (fresh_name, g.distinct);
          },
        )

    -- `removeConnection` directly after `newConnection`, of a server whose connections have the names of
    -- earlier numbers, each another, when the printed form of numbers tells them apart: the assertion
    -- holds, the connections are those that were there before, the number is not used again, and the
    -- connection was established once and its destruction queued once.
    new_connection-remove_connection :
        (r : TcpServer) × (remove_connection (new_connection print s conn) conn new_name ≡ ok r)
        × (r.connections ≡ s.connections)
        × (r.next_conn_id ≡ s.next_conn_id + 1)
        × (r.effects ≡ s.effects ++ (established conn ∷ []) ++ (queued_destroy conn ∷ []))
    unfolding new_connection remove_connection
    new_connection-remove_connection =
        let once = erase-Without s.connections new_name fresh_name in
        let twice : erase (erase s.connections new_name).0 new_name ≡ (s.connections, 0) =
          ap (λ r. erase r.0 new_name) once ∙ once in
        let gone : erase (assign s.connections new_name conn) new_name ≡ (s.connections, 1) =
          if-true _ _ (name_eq_refl new_name) ∙ ap (λ r. (r.0, suc r.1)) twice in
        (
          effect (record (new_connection print s conn) { connections = s.connections })
              (queued_destroy conn),
          rw gone refl,
          refl,
          refl,
          refl,
        )
