-- ===== src/Server/Apart.antt =====
-- Which channels the connections of a server do not have, where one connection changes.
use second_gear.Common.{◌≡◌, ◌≢◌, sym, ap, ◌∙◌, subst, List, All, All-map, All-zip, ℕ_discrete}
use second_gear.Poller.{ChannelPtr, put}
use second_gear.Poller.Valid.{put_self, put_ne}
use second_gear.TcpConnection.{TcpConnection}
use second_gear.TcpServer.{ConnectionPtr}
use second_gear.Server.{Server}

-- Where only the connection `p` has changed, the others have the channels that they had.
pub Apart-back {ℓ} :
    {A : Type ℓ} (f : A → ConnectionPtr) (s t : Server) (p : ConnectionPtr) (ch : ChannelPtr)
    (xs : List A)
    → ((q : ConnectionPtr) → q ≢ p → t.peers q ≡ s.peers q)
    → All (λ x. f x ≢ p) xs
    → All (λ x. (t.peers (f x)).channel ≢ ch) xs
    → All (λ x. (s.peers (f x)).channel ≢ ch) xs
Apart-back f s t p ch xs peers others h =
    All-map (λ x. (f x ≢ p) × ((t.peers (f x)).channel ≢ ch)) (λ x. (s.peers (f x)).channel ≢ ch) xs
      (λ x (ne, a) k. a (ap (λ (c : TcpConnection). c.channel) (peers (f x) ne) ∙ k))
      (All-zip (λ x. f x ≢ p) (λ x. (t.peers (f x)).channel ≢ ch) xs others h)

pub Apart-forth {ℓ} :
    {A : Type ℓ} (f : A → ConnectionPtr) (s t : Server) (p : ConnectionPtr) (ch : ChannelPtr)
    (xs : List A)
    → ((q : ConnectionPtr) → q ≢ p → t.peers q ≡ s.peers q)
    → All (λ x. f x ≢ p) xs
    → All (λ x. (s.peers (f x)).channel ≢ ch) xs
    → All (λ x. (t.peers (f x)).channel ≢ ch) xs
Apart-forth f s t p ch xs peers others h =
    All-map (λ x. (f x ≢ p) × ((s.peers (f x)).channel ≢ ch)) (λ x. (t.peers (f x)).channel ≢ ch) xs
      (λ x (ne, a) k. a (ap (λ (c : TcpConnection). c.channel) (sym (peers (f x) ne)) ∙ k))
      (All-zip (λ x. f x ≢ p) (λ x. (s.peers (f x)).channel ≢ ch) xs others h)

-- Nor does a connection that keeps its channel change anything there.
pub put_channel :
    (s : Server) (p : ConnectionPtr) (d : TcpConnection)
    → d.channel ≡ (s.peers p).channel
    → (q : ConnectionPtr) → (put s.peers p d q).channel ≡ (s.peers q).channel
put_channel s p d same q = elim (ℕ_discrete q p) [
  | yes h ↦
      subst (λ x. (put s.peers p d x).channel ≡ (s.peers x).channel) (sym h)
        (ap (λ (c : TcpConnection). c.channel) (put_self s.peers p d) ∙ same)
  | no ne ↦ ap (λ (c : TcpConnection). c.channel) (put_ne s.peers p d q ne)
]

-- So a channel that belonged to none belongs to none.
pub put_apart {ℓ} :
    {A : Type ℓ} (f : A → ConnectionPtr) (s : Server) (p : ConnectionPtr) (d : TcpConnection)
    (ch : ChannelPtr) (xs : List A)
    → d.channel ≡ (s.peers p).channel
    → All (λ x. (s.peers (f x)).channel ≢ ch) xs
    → All (λ x. (put s.peers p d (f x)).channel ≢ ch) xs
put_apart f s p d ch xs same h =
    All-map (λ x. (s.peers (f x)).channel ≢ ch) (λ x. (put s.peers p d (f x)).channel ≢ ch) xs
      (λ x a k. a (sym (put_channel s p d same (f x)) ∙ k)) h
