-- ===== src/Server/Valid.antt =====
-- The invariant of a server with its connections.
use second_gear.Common.{
  ℕ, ◌≡◌, ◌≢◌, refl, sym, ap, ◌∙◌, subst, List, [], ◌∷◌, ◌++◌, some, All, All-append,
  some-injective,
}
use second_gear.Channel.{Flags}
use second_gear.Poller.{ChannelPtr, PollFd, Poller, put}
use second_gear.Poller.Valid
use second_gear.Poller.Valid.{put_ne}
use second_gear.Poller.Entries.{Entry}
use second_gear.Poller.Events.{Registered}
use second_gear.TcpConnection.{TcpConnection}
use second_gear.TcpConnection.Open.{IsOpen}
use second_gear.TcpConnection.Close.{CanClose}
use second_gear.TcpServer.{Name, ConnectionPtr}
use second_gear.TcpServer.Names
use second_gear.Server.{Server, connection}

-- The poller knows the connection's channel, whose read callback is the connection's, and the connection
-- may still close.
pub record Known (s : Server) (p : ConnectionPtr) : Type 0 where
  pub registered : Registered s.poller (s.peers p).channel
  pub callback : (s.poller.store (s.peers p).channel).read_callback ≡ some p
  pub can : CanClose (s.peers p)

-- A connection of the map is open and has its key for a name.
pub record Live (s : Server) (e : Name × ConnectionPtr) : Type 0 where
  pub known : Known s e.1
  pub opened : IsOpen (connection s e.1)
  pub named : s.names e.1 ≡ e.0

-- A connection that is to be destroyed is in the map no more.
pub record Dying (s : Server) (p : ConnectionPtr) : Type 0 where
  pub known : Known s p
  pub out : All (λ e. e.1 ≢ p) s.tcp.connections

abbrev pub NoDup : List ConnectionPtr → Type 0
NoDup [] = Unit
NoDup (p ∷ ps) = All (λ q. q ≢ p) ps × NoDup ps

-- No connection of the map or about to be destroyed has the channel.
abbrev pub Unowned : Server → ChannelPtr → Type 0
Unowned s ch =
    All (λ e. (s.peers e.1).channel ≢ ch) s.tcp.connections
    × All (λ q. (s.peers q).channel ≢ ch) s.pending

-- What the poller has beyond `base` belongs to connections.
abbrev pub Clean : (base : Poller) → Server → Type 0
Clean base s =
    (fd : ℕ) (ch : ChannelPtr)
    → Unowned s ch
    → s.poller.channels fd ≡ some ch
    → base.channels fd ≡ some ch

-- What `base` has is there as it was, and belongs to no connection.
pub record Stays (base : Poller) (s : Server) (fd : ℕ) (ch : ChannelPtr) : Type 0 where
  pub mapped : s.poller.channels fd ≡ some ch
  pub events : (s.poller.store ch).events ≡ (base.store ch).events
  pub callback : (s.poller.store ch).read_callback ≡ (base.store ch).read_callback
  pub entry : (e : PollFd) → Entry base ch e → Entry s.poller ch e
  pub unowned : Unowned s ch

abbrev pub Kept : (base : Poller) → Server → Type 0
Kept base s = (fd : ℕ) (ch : ChannelPtr) → base.channels fd ≡ some ch → Stays base s fd ch

pub record IsValid (print : ℕ → Name) (base : Poller) (s : Server) : Type 0 where
  pub tcp : second_gear.TcpServer.Names.IsValid print s.tcp
  pub poller : second_gear.Poller.Valid.IsValid s.poller
  pub live : All (Live s) s.tcp.connections
  pub dying : All (Dying s) s.pending
  pub once : NoDup s.pending
  pub clean : Clean base s
  pub kept : Kept base s

-- A server with no connection, on a poller that has what it likes.
abbrev pub start : Name → Poller → (ConnectionPtr → TcpConnection) → Server
start name poller peers = record {
  tcp = second_gear.TcpServer.create name;
  poller = poller;
  peers = peers;
  names = λ p. [];
  pending = [];
}

pub start-IsValid :
    (print : ℕ → Name) (name : Name) (poller : Poller) (peers : ConnectionPtr → TcpConnection)
    → second_gear.Poller.Valid.IsValid poller
    → IsValid print poller (start name poller peers)
start-IsValid print name poller peers v = record {
  tcp = second_gear.TcpServer.Names.create-IsValid print name;
  poller = v;
  live = tt;
  dying = tt;
  once = tt;
  clean = λ fd ch u h. h;
  kept = λ fd ch h. record {
    mapped = h;
    events = refl;
    callback = refl;
    entry = λ e k. k;
    unowned = (tt, tt);
  };
}

pub NoDup-snoc :
    (ps : List ConnectionPtr) (p : ConnectionPtr)
    → NoDup ps
    → All (λ q. p ≢ q) ps
    → NoDup (ps ++ (p ∷ []))
NoDup-snoc [] p h n = (tt, tt)
NoDup-snoc (q ∷ ps) p h n =
    (All-append (λ x. x ≢ q) ps (p ∷ []) h.0 (n.0, tt), NoDup-snoc ps p h.1 n.1)

-- Of another connection nothing has changed that matters.
pub record Undisturbed (s t : Server) (q : ConnectionPtr) : Type 0 where
  pub peer : t.peers q ≡ s.peers q
  pub fd : (t.poller.store (s.peers q).channel).fd ≡ (s.poller.store (s.peers q).channel).fd
  pub events :
      (t.poller.store (s.peers q).channel).events ≡ (s.poller.store (s.peers q).channel).events
  pub callback :
      (t.poller.store (s.peers q).channel).read_callback
      ≡ (s.poller.store (s.peers q).channel).read_callback
  pub channels :
      t.poller.channels (s.poller.store (s.peers q).channel).fd
      ≡ s.poller.channels (s.poller.store (s.peers q).channel).fd

pub Undisturbed-Known :
    (s t : Server) (q : ConnectionPtr)
    → second_gear.Poller.Valid.IsValid t.poller
    → Undisturbed s t q
    → Known s q
    → Known t q
Undisturbed-Known s t q v u k = record {
  registered =
      subst (λ (c : TcpConnection). Registered t.poller c.channel) (sym u.peer)
        (record { valid = v; known = ap t.poller.channels u.fd ∙ u.channels ∙ k.registered.known });
  callback =
      ap (λ (c : TcpConnection). (t.poller.store c.channel).read_callback) u.peer
      ∙ u.callback
      ∙ k.callback;
  can = subst CanClose (sym u.peer) k.can;
}

pub Undisturbed-IsOpen :
    (s t : Server) (q : ConnectionPtr)
    → second_gear.Poller.Valid.IsValid t.poller
    → Undisturbed s t q
    → IsOpen (connection s q)
    → IsOpen (connection t q)
Undisturbed-IsOpen s t q v u o =
    subst (λ (c : TcpConnection). IsOpen (record c { poller = t.poller })) (sym u.peer)
      (record {
        registered = record {
          valid = v;
          known = ap t.poller.channels u.fd ∙ u.channels ∙ o.registered.known;
        };
        input = o.input;
        output = o.output;
        flushed = λ e. o.flushed (ap (λ (f : Flags). f.pollout) (sym u.events) ∙ e);
      })

-- Two connections that the poller knows have two channels.
pub channels_apart :
    (s : Server) (p q : ConnectionPtr)
    → Known s p
    → Known s q
    → q ≢ p
    → (s.peers q).channel ≢ (s.peers p).channel
channels_apart s p q k l ne h = ne (
    some-injective _ _ (sym l.callback ∙ ap (λ c. (s.poller.store c).read_callback) h ∙ k.callback))
