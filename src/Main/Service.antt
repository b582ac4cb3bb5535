-- ===== src/Main/Service.antt =====
-- The program from its set-up on: the server that it starts, over the poller of its loop.
use second_gear.Common.{ℕ, ◌≡◌, refl, sym, ◌∙◌, none, [], List, All, ok, subst}
use second_gear.Time.{Callback}
use second_gear.Poller.{Poller}
use second_gear.Poller.Valid
use second_gear.Poller.Fresh.{Waits}
use second_gear.TcpConnection.{TcpConnection}
use second_gear.TcpServer.{Name, ConnectionPtr, TcpServer}
use second_gear.TcpServer.Names
use second_gear.Server.{Server}
use second_gear.Server.Valid.{IsValid, Kept, start}
use second_gear.Server.Serve.{Request, Reach, Serves, reach-IsValid, serve-Serves}
use second_gear.Loops.{ThreadId, LoopPtr, Process, Acceptor}
use second_gear.Main.{on_message, set_up}
use second_gear.Main.Greeting.{on_message-KeepsBuffer}
use second_gear.Main.Ready.{Given, IsApart, system, Watches, IsReady, set_up-IsReady}

-- `peers` is what lies at the addresses of connections before there are any.
abbrev pub serving : TcpServer → Poller → (ConnectionPtr → TcpConnection) → Server
serving tcp poller peers = record (start [] poller peers) { tcp = tcp }

All-nothing {ℓ κ} : {T : Type ℓ} (P : T → Type κ) {xs : List T} → xs ≡ [] → All P xs
All-nothing P e = subst (All P) (sym e) tt

serving-IsValid :
    (print : ℕ → Name) (tcp : TcpServer) (poller : Poller) (peers : ConnectionPtr → TcpConnection)
    → second_gear.Poller.Valid.IsValid poller
    → tcp.connections ≡ []
    → IsValid print poller (serving tcp poller peers)
serving-IsValid print tcp poller peers v nobody = record {
  tcp = record {
    named = All-nothing _ nobody;
    distinct = subst second_gear.TcpServer.Names.Distinct (sym nobody) tt;
  };
  poller = v;
  live = All-nothing _ nobody;
  dying = tt;
  once = tt;
  clean = λ fd ch u h. h;
  kept = λ fd ch h. record {
    mapped = h;
    events = refl;
    callback = refl;
    entry = λ e k. k;
    unowned = (All-nothing _ nobody, tt);
  };
}

Stays-Waits :
    {base : Poller} {t : Server} {ch fd read : ℕ}
    → Kept base t
    → Waits base ch fd read
    → Waits t.poller ch fd read
Stays-Waits kept w =
    let st = kept _ _ w.mapped in
    record {
      mapped = st.mapped;
      events = st.events ∙ w.events;
      callback = st.callback ∙ w.callback;
      entry = st.entry _ w.entry;
    }

module _ (print : ℕ → Name) (print-injective : (i j : ℕ) → print i ≡ print j → i ≡ j) (w : Process)
    (tid : ThreadId) (this : LoopPtr) (y : Given) (woken expired accepted : Callback)
    (free : w.loop_in_this_thread tid ≡ none) (apart : IsApart y) (name : Name)
    (peers : ConnectionPtr → TcpConnection) where
  ready-Serves :
      {server : TcpServer} {acceptor : Acceptor} {x : Process} {t : Server}
      → IsReady tid this y woken expired accepted server acceptor x
      → Reach on_message print (serving server (x.loops this).poller peers) t
      → (r : Request t)
      → Watches y woken expired accepted t.poller
        × Serves on_message print (x.loops this).poller t r
  ready-Serves {server = server} {x = x} g steps r =
      let base = (x.loops this).poller in
      let valid =
        reach-IsValid on_message on_message-KeepsBuffer print print-injective base
          (serving-IsValid print server base peers g.valid g.nobody) steps in
      (
        record {
          timer = Stays-Waits valid.kept g.watches.timer;
          wakeup = Stays-Waits valid.kept g.watches.wakeup;
          acceptor = Stays-Waits valid.kept g.watches.acceptor;
        },
        serve-Serves on_message on_message-KeepsBuffer print print-injective base _ valid r,
      )

  -- The program after its set-up, in a thread that has no loop, where the system refuses nothing and gives
  -- three descriptors and three addresses for channels that are apart, and numbers print apart: its server,
  -- which has no connection yet and whatever lies at the addresses of connections, after any sequence of
  -- requests, each as `reach-Serves` has it, where input goes to the program's own `onMessage`. The poller
  -- still waits for input on the timers' descriptor, the one that wakes the loop and the one that listens,
  -- each with the channel that calls its own handleRead and with an entry in the table that asks for input;
  -- and the next request fails no assertion: the server is valid again over the poller of the set-up, or a
  -- read or a send throws `length_error`, and the buffer would exceed the maximum of a vector.
  pub set_up-Serves :
      {server : TcpServer} {acceptor : Acceptor} {x : Process} {t : Server}
      → set_up w tid this (system y) woken expired accepted name ≡ ok (server, acceptor, x)
      → Reach on_message print (serving server (x.loops this).poller peers) t
      → (r : Request t)
      → Watches y woken expired accepted t.poller
        × Serves on_message print (x.loops this).poller t r
  set_up-Serves {server = server} {acceptor = acceptor} {x = x} done steps r =
      let (s, a, z, e, g) = set_up-IsReady w tid this y woken expired accepted free apart name in
      ready-Serves
        (subst
          (λ (q : TcpServer × Acceptor × Process).
            IsReady tid this y woken expired accepted q.0 q.1 q.2)
          (same_ok (sym e ∙ done)) g)
        steps r
    where
      same_ok : {p q : TcpServer × Acceptor × Process} → ok p ≡ ok q → p ≡ q
      same_ok h = cc
