-- ===== src/Server/Accept.antt =====
-- `newConnection` of a server with connections.
use second_gear.Common.{
  ℕ_discrete, some, some-injective, ◌∷◌, ℕ, ◌≡◌, ◌≢◌, refl, sym, ap, ◌∙◌, subst, none, ok, ◌>>=◌,
  All, All-map, All-zip, Result,
}
use second_gear.Channel.{Channel}
use second_gear.Poller.{Poller, ChannelPtr, put}
use second_gear.Poller.Valid.{put_self, put_ne}
use second_gear.Poller.Events.{Registered}
use second_gear.TcpConnection.{TcpConnection}
use second_gear.TcpConnection.Open.{IsOpen}
use second_gear.TcpConnection.Close.{CanClose}
use second_gear.TcpConnection.Establish.{
  established, established-IsOpen, connect_established-eq, established_others, established_channels,
  established_entries, established_callback, registered_fd,
}
use second_gear.Poller.Fresh.{Unmapped}
use second_gear.TcpServer as Tcp
use second_gear.TcpServer.{Name, ConnectionPtr, conn_name}
use second_gear.TcpServer.Names.{new_connection-IsValid}
use second_gear.Server.{Server, with_connection, accept_connection}
use second_gear.Server.Valid.{Clean, Kept, Live, IsValid}
use second_gear.Server.Apart.{Apart-back, Apart-forth}
use second_gear.Server.Calls.{Frame, Frame-Stays, Moves, new-Moves, Moves-Live, Moves-Dying}

-- `new` returns no address of a connection that is there.
abbrev pub Fresh : Server → ConnectionPtr → Type 0
Fresh s p = All (λ e. e.1 ≢ p) s.tcp.connections × All (λ q. q ≢ p) s.pending

module _ (print : ℕ → Name) (print-injective : (i j : ℕ) → print i ≡ print j → i ≡ j)
    (base : Poller) (s : Server) (p : ConnectionPtr) (sockfd : ℕ) (channel : ChannelPtr)
    (g : IsValid print base s) (fresh : Fresh s p) (unmapped : Unmapped s.poller channel)
    (free : s.poller.channels sockfd ≡ none) where
  abbrev pub new : TcpConnection
  new = established s.poller channel sockfd p g.poller unmapped free

  abbrev pub name : Name
  name = conn_name print s.tcp.name s.tcp.next_conn_id

  abbrev pub after : Server
  after = record (with_connection s p new) {
    tcp = Tcp.new_connection print s.tcp p;
    names = put s.names p name;
  }

  pub accepted : accept_connection print s p sockfd channel ≡ ok after
  unfolding accept_connection
  accepted =
      ap
        (λ (r : Result TcpConnection). r >>= λ c. ok (record (with_connection s p c) {
          tcp = Tcp.new_connection print s.tcp p;
          names = put s.names p name;
        }))
        (connect_established-eq s.poller channel sockfd p g.poller unmapped free)

  new-IsOpen : IsOpen new
  new-IsOpen = established-IsOpen s.poller channel sockfd p g.poller unmapped free

  new-Frame : Frame s.poller channel sockfd new.poller
  new-Frame = record {
    others = λ x ne.
        let same = established_others s.poller channel sockfd p g.poller unmapped free x ne in
        (
          ap (λ (c : Channel). c.fd) same,
          ap (λ (c : Channel). c.events) same,
          ap (λ (c : Channel). c.read_callback) same,
        );
    channels = established_channels s.poller channel sockfd p g.poller unmapped free;
    entries = established_entries s.poller channel sockfd p g.poller unmapped free;
  }

  after-Moves : Moves s after p
  after-Moves =
      new-Moves s after p channel sockfd unmapped free new-IsOpen.registered.valid new-Frame
        (λ q. put_ne s.peers p new q) (λ q. put_ne s.names p name q)

  new-Live : Live after (name, p)
  new-Live =
      let here : put s.peers p new p ≡ new = put_self s.peers p new in
      record {
        known = record {
          registered =
              subst (λ (c : TcpConnection). Registered new.poller c.channel) (sym here)
                new-IsOpen.registered;
          callback =
              ap (λ (c : TcpConnection). (new.poller.store c.channel).read_callback) here
              ∙ established_callback s.poller channel sockfd p g.poller unmapped free;
          can = subst CanClose (sym here) refl;
        };
        opened =
            subst (λ (c : TcpConnection). IsOpen (record c { poller = new.poller })) (sym here)
              new-IsOpen;
        named = put_self s.names p name;
      }

  after-Clean : after.tcp.connections ≡ (name, p) ∷ s.tcp.connections → Clean base after
  after-Clean kept fd ch u h =
      let (mine, others) = subst (All (λ e. (after.peers e.1).channel ≢ ch)) kept u.0 in
      elim (ℕ_discrete fd sockfd) [
        | yes same ↦ absurd (
            mine (
              ap (λ (c : TcpConnection). c.channel) (put_self s.peers p new)
              ∙ some-injective _ _ (
                  sym (registered_fd s.poller channel sockfd p g.poller unmapped free)
                  ∙ ap new.poller.channels (sym same)
                  ∙ h)))
        | no ne ↦
            g.clean fd ch
              (
                Apart-back (λ (e : Name × ConnectionPtr). e.1) s after p ch s.tcp.connections
                    (λ q. put_ne s.peers p new q) fresh.0 others,
                Apart-back (λ q. q) s after p ch s.pending (λ q. put_ne s.peers p new q) fresh.1
                    u.1,
              )
              (sym (new-Frame.channels fd ne) ∙ h)
      ]

  after-Kept : after.tcp.connections ≡ (name, p) ∷ s.tcp.connections → Kept base after
  after-Kept kept fd ch h =
      let st = g.kept fd ch h in
      let apart : channel ≢ ch = λ k. unmapped fd (st.mapped ∙ ap some (sym k)) in
      let free_fd : fd ≢ sockfd =
        λ e. nothing (sym free ∙ ap s.poller.channels (sym e) ∙ st.mapped) in
      Frame-Stays base s after channel sockfd fd ch new-Frame apart free_fd
        (
          subst (All (λ e. (after.peers e.1).channel ≢ ch)) (sym kept) (
            λ k. apart (ap (λ (c : TcpConnection). c.channel) (sym (put_self s.peers p new)) ∙ k),
            Apart-forth (λ (e : Name × ConnectionPtr). e.1) s after p ch s.tcp.connections
                (λ q. put_ne s.peers p new q) fresh.0 st.unowned.0,
          ),
          Apart-forth (λ q. q) s after p ch s.pending (λ q. put_ne s.peers p new q) fresh.1
              st.unowned.1,
        )
        st
    where
      nothing : {c : ChannelPtr} → none ≢ some c
      nothing e = cc

  pub accept_connection-IsValid :
      (t : Server) × (accept_connection print s p sockfd channel ≡ ok t)
      × IsValid print base t
      × (t.tcp.connections ≡ (name, p) ∷ s.tcp.connections)
      × (t.poller.channels sockfd ≡ some channel)
  accept_connection-IsValid =
      let (kept, told, without, tcp) = new_connection-IsValid print print-injective s.tcp p g.tcp in
      (
        after,
        accepted,
        record {
          tcp = tcp;
          poller = new-IsOpen.registered.valid;
          live = subst (All (Live after)) (sym kept) (
            new-Live,
            All-map (λ e. (e.1 ≢ p) × Live s e) (Live after) s.tcp.connections
                (λ e (ne, l). Moves-Live e after-Moves ne l)
                (All-zip (λ e. e.1 ≢ p) (Live s) s.tcp.connections fresh.0 g.live),
          );
          dying =
              Moves-Dying s after p s.pending after-Moves fresh.1 g.dying
                (λ q ne out. subst (All (λ e. e.1 ≢ q)) (sym kept) (λ h. ne (sym h), out));
          once = g.once;
          clean = after-Clean kept;
          kept = after-Kept kept;
        },
        kept,
        registered_fd s.poller channel sockfd p g.poller unmapped free,
      )
