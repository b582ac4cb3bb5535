-- ===== src/Server/Calls.antt =====
-- What a call on one connection does to the others, and to the whole.
use second_gear.Common.{
  ℕ, ◌≡◌, ◌≢◌, refl, sym, ap, ◌∙◌, subst, List, none, some, All, All-map, All-zip, All-at,
  some-injective, get_elem?, ℕ_discrete,
}
use second_gear.Poller.{ChannelPtr, Poller, put}
use second_gear.Poller.Valid
use second_gear.Poller.Valid.{put_self, put_ne}
use second_gear.Poller.Entries.{KeepsEntries}
use second_gear.Poller.Events.{Registered}
use second_gear.TcpConnection.{TcpConnection}
use second_gear.TcpConnection.Open.{IsOpen}
use second_gear.TcpConnection.Close.{CanClose}
use second_gear.TcpServer.{Name, ConnectionPtr}
use second_gear.Server.{Server, connection, with_connection}
use second_gear.Server.Apart.{put_channel, put_apart}
use second_gear.Server.Valid.{
  Known, Live, Dying, Unowned, Stays, IsValid, Undisturbed, Undisturbed-Known, Undisturbed-IsOpen,
  channels_apart,
}

-- Only the channel `ch` and the descriptor `fd` may differ.
pub record Frame (s : Poller) (ch : ChannelPtr) (fd : ℕ) (r : Poller) : Type 0 where
  pub others :
      (x : ChannelPtr)
      → x ≢ ch
      → ((r.store x).fd ≡ (s.store x).fd)
        × ((r.store x).events ≡ (s.store x).events)
        × ((r.store x).read_callback ≡ (s.store x).read_callback)
  pub channels : (f : ℕ) → f ≢ fd → r.channels f ≡ s.channels f
  pub entries : KeepsEntries s ch r

-- Only the connection `p` may differ.
pub record Moves (s t : Server) (p : ConnectionPtr) : Type 0 where
  pub valid : second_gear.Poller.Valid.IsValid t.poller
  pub undisturbed : (q : ConnectionPtr) → q ≢ p → Known s q → Undisturbed s t q
  pub names : (q : ConnectionPtr) → q ≢ p → t.names q ≡ s.names q

pub Moves-Known :
    {s t : Server} {p : ConnectionPtr} (q : ConnectionPtr)
    → Moves s t p
    → q ≢ p
    → Known s q
    → Known t q
Moves-Known q m ne k = Undisturbed-Known _ _ q m.valid (m.undisturbed q ne k) k

pub Moves-Live :
    {s t : Server} {p : ConnectionPtr} (e : Name × ConnectionPtr)
    → Moves s t p
    → e.1 ≢ p
    → Live s e
    → Live t e
Moves-Live e m ne l = record {
  known = Moves-Known e.1 m ne l.known;
  opened = Undisturbed-IsOpen _ _ e.1 m.valid (m.undisturbed e.1 ne l.known) l.opened;
  named = m.names e.1 ne ∙ l.named;
}

-- A frame leaves the connections alone whose channel and descriptor are others.
Frame-Undisturbed :
    (s t : Server) (ch : ChannelPtr) (fd : ℕ) (q : ConnectionPtr)
    → Frame s.poller ch fd t.poller
    → t.peers q ≡ s.peers q
    → Known s q
    → (s.peers q).channel ≢ ch
    → s.poller.channels fd ≢ some (s.peers q).channel
    → Undisturbed s t q
Frame-Undisturbed s t ch fd q f peer k apart free =
    let (a, b, c) = f.others (s.peers q).channel apart in
    record {
      peer = peer;
      fd = a;
      events = b;
      callback = c;
      channels = f.channels _ (λ h. free (ap s.poller.channels (sym h) ∙ k.registered.known));
    }

-- A call on a connection that the poller knows.
pub Known-Moves :
    (s t : Server) (p : ConnectionPtr)
    → Known s p
    → second_gear.Poller.Valid.IsValid t.poller
    → Frame s.poller (s.peers p).channel (s.poller.store (s.peers p).channel).fd t.poller
    → ((q : ConnectionPtr) → q ≢ p → t.peers q ≡ s.peers q)
    → ((q : ConnectionPtr) → q ≢ p → t.names q ≡ s.names q)
    → Moves s t p
Known-Moves s t p k v f peers names = record {
  valid = v;
  undisturbed = λ q ne l.
      Frame-Undisturbed s t _ _ q f (peers q ne) l (channels_apart s p q k l ne)
        (λ h. channels_apart s p q k l ne (some-injective _ _ (sym h ∙ k.registered.known)));
  names = names;
}

-- Nor does it change what stays of another poller.
pub Frame-Stays :
    (base : Poller) (s t : Server) (x : ChannelPtr) (f : ℕ) (fd : ℕ) (ch : ChannelPtr)
    → Frame s.poller x f t.poller
    → x ≢ ch
    → fd ≢ f
    → Unowned t ch
    → Stays base s fd ch
    → Stays base t fd ch
Frame-Stays base s t x f fd ch frame apart ne u st =
    let (a, b, c) = frame.others ch (λ h. apart (sym h)) in
    record {
      mapped = frame.channels fd ne ∙ st.mapped;
      events = b ∙ st.events;
      callback = c ∙ st.callback;
      entry = λ e k. frame.entries ch fd e (λ h. apart (sym h)) st.mapped (st.entry e k);
      unowned = u;
    }

pub Known-Stays :
    (base : Poller) (s t : Server) (p : ConnectionPtr) (fd : ℕ) (ch : ChannelPtr)
    → Known s p
    → Frame s.poller (s.peers p).channel (s.poller.store (s.peers p).channel).fd t.poller
    → (s.peers p).channel ≢ ch
    → Unowned t ch
    → Stays base s fd ch
    → Stays base t fd ch
Known-Stays base s t p fd ch k frame apart u st =
    Frame-Stays base s t _ _ fd ch frame apart
      (λ e.
        apart
          (some-injective _ _ (sym k.registered.known ∙ ap s.poller.channels (sym e) ∙ st.mapped)))
      u st

-- A call on a new connection, at a channel and a descriptor that the poller does not know.
pub new-Moves :
    (s t : Server) (p : ConnectionPtr) (ch : ChannelPtr) (fd : ℕ)
    → ((f : ℕ) → s.poller.channels f ≢ some ch)
    → s.poller.channels fd ≡ none
    → second_gear.Poller.Valid.IsValid t.poller
    → Frame s.poller ch fd t.poller
    → ((q : ConnectionPtr) → q ≢ p → t.peers q ≡ s.peers q)
    → ((q : ConnectionPtr) → q ≢ p → t.names q ≡ s.names q)
    → Moves s t p
new-Moves s t p ch fd unmapped free v f peers names = record {
  valid = v;
  undisturbed = λ q ne l.
      Frame-Undisturbed s t ch fd q f (peers q ne) l
        (λ h. unmapped _ (l.registered.known ∙ ap some h)) (λ h. nothing (sym free ∙ h));
  names = names;
}
  where
    nothing : {c : ChannelPtr} → none ≢ some c
    nothing h = cc

-- Connections that are to be destroyed stay so.
pub Moves-Dying :
    (s t : Server) (p : ConnectionPtr) (ps : List ConnectionPtr)
    → Moves s t p
    → All (λ q. q ≢ p) ps
    → All (Dying s) ps
    → ((q : ConnectionPtr)
        → q ≢ p
        → All (λ e. e.1 ≢ q) s.tcp.connections
        → All (λ e. e.1 ≢ q) t.tcp.connections)
    → All (Dying t) ps
Moves-Dying s t p ps m others d out =
    All-map (λ q. (q ≢ p) × Dying s q) (Dying t) ps
      (λ q (ne, x). record { known = Moves-Known q m ne x.known; out = out q ne x.out })
      (All-zip (λ q. q ≢ p) (Dying s) ps others d)

-- A connection of the map that stays there, open, with its channel.
pub stays-IsValid :
    (print : ℕ → Name) (base : Poller) (s : Server) (i : ℕ) (name : Name) (p : ConnectionPtr)
    (d : TcpConnection)
    → IsValid print base s
    → get_elem? s.tcp.connections i ≡ some (name, p)
    → IsOpen d
    → CanClose d
    → d.channel ≡ (s.peers p).channel
    → (d.poller.store d.channel).read_callback ≡ some p
    → Frame s.poller (s.peers p).channel (s.poller.store (s.peers p).channel).fd d.poller
    → d.poller.channels ≡ s.poller.channels
    → IsValid print base (with_connection s p d)
stays-IsValid print base s i name p d g at opened can same callback f channels =
    let t = with_connection s p d in
    let l = All-at (Live s) s.tcp.connections i g.live at in
    let m =
      Known-Moves s t p l.known opened.registered.valid f (λ q. put_ne s.peers p d q)
        (λ q ne. refl) in
    let here : put s.peers p d p ≡ d = put_self s.peers p d in
    let known : Known t p = record {
      registered =
          subst (λ (c : TcpConnection). Registered d.poller c.channel) (sym here) opened.registered;
      callback =
          ap (λ (c : TcpConnection). (d.poller.store c.channel).read_callback) here ∙ callback;
      can = subst CanClose (sym here) can;
    } in
    let mine : IsOpen (connection t p) =
      subst (λ (c : TcpConnection). IsOpen (record c { poller = d.poller })) (sym here) opened in
    record {
      tcp = g.tcp;
      poller = opened.registered.valid;
      live =
          All-map (Live s) (Live t) s.tcp.connections
            (λ e x. elim (ℕ_discrete e.1 p) [
              | yes h ↦ record {
                known = subst (Known t) (sym h) known;
                opened = subst (λ q. IsOpen (connection t q)) (sym h) mine;
                named = x.named;
              }
              | no ne ↦ Moves-Live e m ne x
            ])
            g.live;
      dying =
          Moves-Dying s t p s.pending m
            (All-map (Dying s) (λ q. q ≢ p) s.pending
              (λ q x h. All-at (λ e. e.1 ≢ q) s.tcp.connections i x.out at (sym h)) g.dying)
            g.dying (λ q ne out. out);
      once = g.once;
      clean = λ fd ch u h.
          g.clean fd ch
            (
              All-map (λ e. (t.peers e.1).channel ≢ ch) (λ e. (s.peers e.1).channel ≢ ch)
                  s.tcp.connections (λ e a k. a (put_channel s p d same e.1 ∙ k)) u.0,
              All-map (λ q. (t.peers q).channel ≢ ch) (λ q. (s.peers q).channel ≢ ch) s.pending
                  (λ q a k. a (put_channel s p d same q ∙ k)) u.1,
            )
            (ap (λ m. m fd) (sym channels) ∙ h);
      kept = λ fd ch h.
          let st = g.kept fd ch h in
          Known-Stays base s t p fd ch l.known f
            (All-at (λ e. (s.peers e.1).channel ≢ ch) s.tcp.connections i st.unowned.0 at)
            (
              put_apart (λ (e : Name × ConnectionPtr). e.1) s p d ch s.tcp.connections same
                  st.unowned.0,
              put_apart (λ q. q) s p d ch s.pending same st.unowned.1,
            )
            st;
    }
