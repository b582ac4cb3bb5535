-- ===== src/Server/Tests.antt =====
-- A server that has accepted one connection, whose peer then ends it.
use second_gear.Common.{
  ℕ, ◌≡◌, refl, sym, ap, ◌∙◌, [], ◌∷◌, List, length, replicate, length-replicate, get_elem?, arith,
}
use second_gear.Common.Int.{pos}
use second_gear.Channel.{Channel, new_channel}
use second_gear.Net.{no_address, success, connection}
use second_gear.Poller.{ChannelPtr, create}
use second_gear.Poller.Valid.{create-IsValid}
use second_gear.Buffer.{got, retrieve_all}
use second_gear.Buffer.Valid.{fresh, retrieve_all-IsValid}
use second_gear.TcpConnection.{TcpConnection, connecting}
use second_gear.TcpServer.{Name, ConnectionPtr}
use second_gear.TcpServer.Names.{new_connection-IsValid}
use second_gear.Server.{Server, MessageCallback, Input, handle_accept}
use second_gear.Server.Read.{KeepsBuffer, Connected}
use second_gear.Server.Listen.{Accepts, handle_accept-Accepts}
use second_gear.Server.Valid.{IsValid, start, start-IsValid}
use second_gear.Server.Accept.{after, accepted, name}
use second_gear.Server.Serve.{Request, accepts, reads, Reach, done, next, Serves, reach-Serves}

abbrev ones : ℕ → Name
ones n = replicate n 49

ones_apart : (i j : ℕ) → ones i ≡ ones j → i ≡ j
ones_apart i j h = sym (length-replicate i 49) ∙ ap length h ∙ length-replicate j 49

abbrev channels : ChannelPtr → Channel
channels p = new_channel 5

abbrev nobody : ConnectionPtr → TcpConnection
nobody p = record {
  poller = create channels;
  channel = 0;
  state = connecting;
  input_buffer = fresh;
  output_buffer = fresh;
  effects = [];
}

abbrev begun : Server
begun = start (83 ∷ []) (create channels) nobody

begun-IsValid : IsValid ones (create channels) begun
begun-IsValid = start-IsValid ones (83 ∷ []) (create channels) nobody (create-IsValid channels)

-- Connection 8 with socket 7 and its channel at address 3.
abbrev one_there : Server
one_there =
    after ones ones_apart (create channels) begun 8 7 3 begun-IsValid (tt, tt) (λ fd h. cc) refl

-- A callback that takes everything away, as that of the program does.
abbrev forget : MessageCallback
forget p t b = retrieve_all b

forget-KeepsBuffer : KeepsBuffer forget
forget-KeepsBuffer p t b v = retrieve_all-IsValid v

one_there-Reach : Reach forget ones begun one_there
one_there-Reach = next done (accepts 8 7 3 (tt, tt) (λ fd h. cc) refl) (
    accepted ones ones_apart (create channels) begun 8 7 3 begun-IsValid (tt, tt) (λ fd h. cc) refl)

eight-Connected : Connected one_there 8
eight-Connected = (
  0,
  name ones ones_apart (create channels) begun 8 7 3 begun-IsValid (tt, tt) (λ fd h. cc) refl,
  ap (λ es. get_elem? es 0)
      (new_connection-IsValid ones ones_apart begun.tcp 8 begun-IsValid.tcp).0,
)

abbrev ending : Request one_there
ending = reads 8 (pos 40) (got []) eight-Connected (omega arith)

reach-Serves_example : Serves forget ones (create channels) one_there ending
reach-Serves_example =
    reach-Serves forget forget-KeepsBuffer ones ones_apart (create channels) begun-IsValid
      one_there-Reach ending

-- Five bytes come for the connection.
abbrev five : List Input
five = record { conn = 8; receive_time = pos 40; result = got (replicate 5 65) } ∷ []

handle_accept-Accepts_example :
    Accepts ones
      (create channels)
      begun
      (connection 7 no_address)
      (success no_address)
      8
      3
      (handle_accept ones begun (connection 7 no_address) (success no_address) 8 3)
handle_accept-Accepts_example =
    handle_accept-Accepts ones ones_apart (create channels) begun (connection 7 no_address)
      (success no_address) 8 3 begun-IsValid (tt, tt) (λ fd h. cc) refl
