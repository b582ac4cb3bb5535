-- ===== src/Server/Close.antt =====
-- The end of a connection of a server: `handleClose` with `removeConnection`, and later
-- `connectDestroyed`.
use second_gear.Common.{
  ℕ_discrete, All-split, some, none, ℕ, ◌≡◌, ◌≢◌, refl, sym, ap, ◌∙◌, subst, ◌||◌, List, [], ◌∷◌,
  ◌++◌, ok, ◌>>=◌, All, All-at, All-map, All-zip, All-append, get_elem?, Result,
}
use second_gear.Channel.{Channel}
use second_gear.Poller.{Poller, ChannelPtr, put}
use second_gear.Poller.Valid.{put_self, put_ne}
use second_gear.Poller.Events.{Registered}
use second_gear.TcpConnection.{TcpConnection, is_connected, is_disconnecting}
use second_gear.TcpConnection.Close.{CanClose, Closed, connect_destroyed-Destroyed}
use second_gear.TcpServer.{Name, ConnectionPtr, TcpServer, erase, remove_connection}
use second_gear.TcpServer.Removal.{
  All-unerase, All-erase, erase_leaves-Without, remove_connection-Removes,
}
use second_gear.Server.{Server, connection, with_connection, remove, destroy_connection}
use second_gear.Server.Valid.{Known, Live, Dying, IsValid, NoDup, NoDup-snoc}
use second_gear.Server.Apart.{Apart-back, put_apart, put_channel}
use second_gear.Server.Calls.{Frame, Known-Stays, Moves, Known-Moves, Moves-Live, Moves-Dying}

module _ (print : ℕ → Name) (base : Poller) (s : Server) (i : ℕ) (name : Name) (p : ConnectionPtr)
    (d : TcpConnection) (g : IsValid print base s)
    (at : get_elem? s.tcp.connections i ≡ some (name, p)) (cl : Closed (connection s p) d) where
  mine : Live s (name, p)
  mine = All-at (Live s) s.tcp.connections i g.live at

  -- What stays in the map is another connection.
  pub left-apart : All (λ e. e.1 ≢ p) (erase s.tcp.connections name).0
  left-apart =
      All-map (λ e. (e.0 ≢ name) × Live s e) (λ e. e.1 ≢ p) (erase s.tcp.connections name).0
        (λ e (ne, l) h. ne (sym l.named ∙ ap s.names h ∙ mine.named))
        (All-zip (λ e. e.0 ≢ name) (Live s) (erase s.tcp.connections name).0
          (erase_leaves-Without s.tcp.connections name)
          (All-erase (Live s) s.tcp.connections name g.live))

  pending-apart : All (λ q. q ≢ p) s.pending
  pending-apart =
      All-map (Dying s) (λ q. q ≢ p) s.pending
        (λ q x h. All-at (λ e. e.1 ≢ q) s.tcp.connections i x.out at (sym h)) g.dying

  pub remove-IsValid :
      (t : Server) × (remove (with_connection s p d) p ≡ ok t)
      × IsValid print base t
      × (t.peers ≡ put s.peers p d)
      × (t.pending ≡ s.pending ++ (p ∷ []))
      × (t.tcp.connections ≡ (erase s.tcp.connections name).0)
  unfolding remove
  remove-IsValid =
      let (tcp, e, valid, left) = remove_connection-Removes print s.tcp i g.tcp at in
      let t : Server = record (with_connection s p d) {
        tcp = tcp;
        pending = s.pending ++ (p ∷ []);
      } in
      let here : put s.peers p d p ≡ d = put_self s.peers p d in
      let frame : Frame s.poller (s.peers p).channel (s.poller.store (s.peers p).channel).fd
          d.poller =
        record {
          others = λ x ne.
              let same = cl.others x ne in
              (
                ap (λ (c : Channel). c.fd) same,
                ap (λ (c : Channel). c.events) same,
                ap (λ (c : Channel). c.read_callback) same,
              );
          channels = λ f ne. ap (λ m. m f) cl.channels;
          entries = cl.entries;
        } in
      let m : Moves s t p =
        Known-Moves s t p mine.known cl.registered.valid frame (λ q. put_ne s.peers p d q)
          (λ q ne. refl) in
      let out : (q : ConnectionPtr)
          → All (λ e. e.1 ≢ q) (erase s.tcp.connections name).0
          → All (λ e. e.1 ≢ q) tcp.connections =
        λ q. subst (All (λ e. e.1 ≢ q)) (sym left) in
      let known : Known t p = record {
        registered =
            subst (λ (c : TcpConnection). Registered d.poller c.channel) (sym here) cl.registered;
        callback =
            ap (λ (c : TcpConnection). (d.poller.store c.channel).read_callback) here
            ∙ cl.callback
            ∙ mine.known.callback;
        can =
            subst CanClose (sym here)
              (ap (λ x. is_connected x || is_disconnecting x) cl.state ∙ mine.known.can);
      } in
      (
        t,
        ap
              (λ n. remove_connection s.tcp p n >>= λ x.
                ok (record (with_connection s p d) { tcp = x; pending = s.pending ++ (p ∷ []) }))
              mine.named
            ∙ ap
                (λ (r : Result TcpServer). r >>= λ x.
                  ok (record (with_connection s p d) { tcp = x; pending = s.pending ++ (p ∷ []) }))
                e,
        record {
          tcp = valid;
          poller = cl.registered.valid;
          live = subst (All (Live t)) (sym left) (
              All-map (λ e. (e.1 ≢ p) × Live s e) (Live t) (erase s.tcp.connections name).0
                (λ e (ne, l). Moves-Live e m ne l)
                (All-zip (λ e. e.1 ≢ p) (Live s) (erase s.tcp.connections name).0 left-apart
                  (All-erase (Live s) s.tcp.connections name g.live)));
          dying =
              All-append (Dying t) s.pending (p ∷ [])
                (Moves-Dying s t p s.pending m pending-apart g.dying
                  (λ q ne o. out q (All-erase (λ e. e.1 ≢ q) s.tcp.connections name o)))
                (record { known = known; out = out p left-apart }, tt);
          clean = λ fd ch u h.
              let (old, (last, none_left)) =
                All-split (λ q. (t.peers q).channel ≢ ch) s.pending (p ∷ []) u.1 in
              g.clean fd ch
                (
                  All-unerase (λ e. (s.peers e.1).channel ≢ ch) s.tcp.connections i g.tcp.distinct
                      at (λ k. last (put_channel s p d cl.channel p ∙ k))
                      (All-map (λ e. (t.peers e.1).channel ≢ ch) (λ e. (s.peers e.1).channel ≢ ch)
                        (erase s.tcp.connections name).0
                        (λ e a k. a (put_channel s p d cl.channel e.1 ∙ k))
                        (subst (All (λ e. (t.peers e.1).channel ≢ ch)) left u.0)),
                  All-map (λ q. (t.peers q).channel ≢ ch) (λ q. (s.peers q).channel ≢ ch) s.pending
                      (λ q a k. a (put_channel s p d cl.channel q ∙ k)) old,
                )
                (ap (λ m. m fd) (sym cl.channels) ∙ h);
          kept = λ fd ch h.
              let st = g.kept fd ch h in
              let apart : (s.peers p).channel ≢ ch =
                All-at (λ e. (s.peers e.1).channel ≢ ch) s.tcp.connections i st.unowned.0 at in
              Known-Stays base s t p fd ch mine.known frame apart
                (
                  subst (All (λ e. (t.peers e.1).channel ≢ ch)) (sym left) (
                      put_apart (λ (e : Name × ConnectionPtr). e.1) s p d ch
                        (erase s.tcp.connections name).0 cl.channel
                        (All-erase (λ e. (s.peers e.1).channel ≢ ch) s.tcp.connections name
                          st.unowned.0)),
                  All-append (λ q. (t.peers q).channel ≢ ch) s.pending (p ∷ [])
                      (put_apart (λ q. q) s p d ch s.pending cl.channel st.unowned.1)
                      (λ k. apart (sym (put_channel s p d cl.channel p) ∙ k), tt),
                )
                st;
          once =
              NoDup-snoc s.pending p g.once
                (All-map (λ q. q ≢ p) (λ q. p ≢ q) s.pending (λ q ne h. ne (sym h)) pending-apart);
        },
        refl,
        refl,
        left,
      )

pub destroy_connection-IsValid :
    (print : ℕ → Name) (base : Poller) (s : Server) (p : ConnectionPtr)
    (others : List ConnectionPtr)
    → IsValid print base s
    → s.pending ≡ p ∷ others
    → (t : Server) × (destroy_connection s p others ≡ ok t)
      × IsValid print base t
      × (t.tcp ≡ s.tcp)
      × (t.pending ≡ others)
      × ((q : ConnectionPtr) → q ≢ p → t.peers q ≡ s.peers q)
unfolding destroy_connection
destroy_connection-IsValid print base s p others g first =
    let (mine, rest) = subst (All (Dying s)) first g.dying in
    let (apart, once) = subst NoDup first g.once in
    let (d, e, ds) =
      connect_destroyed-Destroyed (connection s p) mine.known.registered mine.known.can in
    let t : Server = record (with_connection s p d) { pending = others } in
    let frame : Frame s.poller (s.peers p).channel (s.poller.store (s.peers p).channel).fd
        d.poller =
      record { others = ds.others; channels = ds.kept; entries = ds.entries } in
    let m : Moves s t p =
      Known-Moves s t p mine.known ds.valid frame (λ q. put_ne s.peers p d q) (λ q ne. refl) in
    (
      t,
      ap
          (λ (r : Result TcpConnection).
            r >>= λ c. ok (record (with_connection s p c) { pending = others }))
          e,
      record {
        tcp = g.tcp;
        poller = ds.valid;
        live =
            All-map (λ e. (e.1 ≢ p) × Live s e) (Live t) s.tcp.connections
              (λ e (ne, l). Moves-Live e m ne l)
              (All-zip (λ e. e.1 ≢ p) (Live s) s.tcp.connections mine.out g.live);
        dying = Moves-Dying s t p others m apart rest (λ q ne out. out);
        once = once;
        kept = λ fd ch h.
            let st = g.kept fd ch h in
            let (apart_p, apart_others) =
              subst (All (λ q. (s.peers q).channel ≢ ch)) first st.unowned.1 in
            Known-Stays base s t p fd ch mine.known frame apart_p
              (
                put_apart (λ (e : Name × ConnectionPtr). e.1) s p d ch s.tcp.connections ds.channel
                    st.unowned.0,
                put_apart (λ q. q) s p d ch others ds.channel apart_others,
              )
              st;
        clean = λ fd ch u h. elim (ℕ_discrete fd (s.poller.store (s.peers p).channel).fd) [
          | yes here ↦ absurd (nothing (sym ds.gone ∙ ap d.poller.channels (sym here) ∙ h))
          | no there ↦
              let before = sym (ds.kept fd there) ∙ h in
              g.clean fd ch
                (
                  Apart-back (λ (e : Name × ConnectionPtr). e.1) s t p ch s.tcp.connections
                      (λ q. put_ne s.peers p d q) mine.out u.0,
                  subst (All (λ q. (s.peers q).channel ≢ ch)) (sym first) (
                    λ k. there (
                        sym (g.poller.listed fd ch before).fd_eq
                        ∙ ap (λ c. (s.poller.store c).fd) (sym k)),
                    Apart-back (λ q. q) s t p ch others (λ q. put_ne s.peers p d q) apart u.1,
                  ),
                )
                before
        ];
      },
      refl,
      refl,
      λ q. put_ne s.peers p d q,
    )
  where
    nothing : {c : ChannelPtr} → none ≢ some c
    nothing h = cc
