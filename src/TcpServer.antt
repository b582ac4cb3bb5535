-- ===== src/TcpServer.antt =====
-- TcpServer.h, TcpServer.cpp, Acceptor.h and Acceptor.cpp, in the thread of the loop. `std::map` is an
-- association list; a name is a list of characters. What `snprintf("%d")` prints is the argument
-- `print`. A connection is an address.
pub mod Names
pub mod Removal
mod Tests
use second_gear.Common.{
  ℕ, zero, suc, ◌+◌, Bool, true, false, ◌&&◌, List, [], ◌∷◌, ◌++◌, Result, ok, err, ◌>>=◌, ◌>>◌,
  assert, ◌==◌, if◌then◌else◌, length,
}
use second_gear.Common.Int.{pos, negsuc}
use second_gear.Net.{SockAddr, Accepted, SysResult, socket_accept, close}

abbrev pub Name : Type 0
Name = List ℕ

abbrev pub ConnectionPtr : Type 0
ConnectionPtr = ℕ

-- What the server does to others: it sets a connection's callbacks and establishes it, or hands its
-- `connectDestroyed` to the loop, or closes a descriptor that nobody takes, or listens.
pub data Effect : Type 0 where
  established : ConnectionPtr → Effect
  queued_destroy : ConnectionPtr → Effect
  closed : ℕ → Effect
  listened : Effect

pub record TcpServer : Type 0 where
  pub name : Name
  pub started : Bool
  pub listenning : Bool
  pub next_conn_id : ℕ
  pub connections : List (Name × ConnectionPtr)
  pub effects : List Effect

abbrev pub create : Name → TcpServer
create name = record {
  name = name;
  started = false;
  listenning = false;
  next_conn_id = 1;
  connections = [];
  effects = [];
}

abbrev pub effect : TcpServer → Effect → TcpServer
effect s e = record s { effects = s.effects ++ (e ∷ []) }

abbrev pub name_eq : Name → Name → Bool
name_eq [] [] = true
name_eq [] (y ∷ ys) = false
name_eq (x ∷ xs) [] = false
name_eq (x ∷ xs) (y ∷ ys) = (x == y) && name_eq xs ys

-- `std::map::erase` of a key: what is left, and how many elements it took.
abbrev pub erase : List (Name × ConnectionPtr) → Name → List (Name × ConnectionPtr) × ℕ
erase [] name = ([], 0)
erase (e ∷ es) name =
    let rest = erase es name in
    if name_eq e.0 name then (rest.0, suc rest.1) else (e ∷ rest.0, rest.1)

-- `connections_[name] = conn`
abbrev pub assign : List (Name × ConnectionPtr) → Name → ConnectionPtr → List (Name × ConnectionPtr)
assign es name conn = (name, conn) ∷ (erase es name).0

-- The acceptor's `listen`, which `start` runs in the loop.
abbrev pub listen : TcpServer → TcpServer
listen s = effect (record s { listenning = true }) listened

unfoldable pub start : TcpServer → TcpServer
start s =
    let begun : TcpServer = record s { started = true } in
    if begun.listenning then begun else listen begun

-- `#` is character 35.
abbrev pub conn_name : (print : ℕ → Name) → Name → ℕ → Name
conn_name print name id = name ++ (35 ∷ print id)

-- `conn` is the address of the new connection.
unfoldable pub new_connection : (print : ℕ → Name) → TcpServer → ConnectionPtr → TcpServer
new_connection print s conn =
    let name = conn_name print s.name s.next_conn_id in
    effect
      (record s { next_conn_id = s.next_conn_id + 1; connections = assign s.connections name conn })
      (established conn)

-- `name` is the connection's own.
pub remove_connection : TcpServer → ConnectionPtr → (name : Name) → Result TcpServer
remove_connection s conn name = do
  let left = erase s.connections name
  assert (left.1 == 1)
  ok (effect (record s { connections = left.0 }) (queued_destroy conn))

-- The acceptor's `handleRead`, when the server has set its callback or not. `outcome` is what `accept4`
-- did, with `peer` for the address before it, and `closing` what `close` of an unwanted descriptor did.
pub handle_read :
    (print : ℕ → Name)
    → TcpServer
    → (callback : Bool) → (peer : SockAddr) → (outcome : Accepted)
    → (closing : SysResult (Unit {0})) → ConnectionPtr
    → Result TcpServer
handle_read print s callback peer outcome closing conn = socket_accept peer outcome >>= λ r.
    elim r.0 [
      | negsuc n ↦ ok s
      | pos fd ↦
          if callback
          then ok (new_connection print s conn)
          else (close closing >>= λ done. ok (effect s (closed fd)))
    ]
