-- ===== src/Renet/Server.antt =====
-- src/renet/server.rs: the UDP server. The crates `renet` and `renet_netcode` are the parameter
-- `ServerCrates`. A `HashMap` is the list of its entries. Clones of a connection share its time and its
-- queue: they are a `Cell` of the server, found by its address. Times are milliseconds of the server's
-- clock. A panic of `unwrap` is `panicked`.
pub mod Step
pub mod Cells
pub mod Events
pub mod Receiving
pub mod Delivery
pub mod Retain
pub mod Invariant
pub mod Lifecycle
pub mod View
pub mod History
pub mod Panic
use Prim.Native.String.{String}
use brilliance_network.Prelude.{
  ℕ, ◌+◌, Bool, true, false, not, Option, none, some, List, [], ◌∷◌, leb, ◌==◌, if◌then◌else◌,
}
use brilliance_network.Channel.{Flume, Codec, ok, err}
use brilliance_network.Messages.{NetworkMessageType}
use brilliance_network.Server.{ConnectionMessages, connect, disconnect}
use brilliance_network.Tokio.Entries.{insert, remove}
use brilliance_network.Renet.Channels.{
  ClientChannel, client_channel_id, server_channel_id, map_type_channel,
}
use brilliance_network.Renet.Run.{Run, ran, ◌>>=◌, unwrap, while_some}

-- `ServerEvent` of the crate `renet`.
pub data ServerEvent (Reason : Type 0) : Type 0 where
  client_connected : (client_id : ℕ) → ServerEvent Reason
  client_disconnected : (client_id : ℕ) (reason : Reason) → ServerEvent Reason

-- `RenetServer` is `S` and `NetcodeServerTransport` is `T`. A message is received from a client, by the
-- number of the channel.
pub record ServerCrates (S T Duration Err Reason Addr : Type 0) : Type 0 where
  pub update : Duration → S → S
  pub transport_update : Duration → T → S → Option Err × T × S
  pub receive_message : ℕ → ℕ → S → Option (List ℕ × S)
  pub get_event : S → Option (ServerEvent Reason × S)
  pub client_addr : ℕ → T → Option Addr
  pub send_packets : T → S → T × S
  pub send_message : ℕ → ℕ → List ℕ → S → S
  pub disconnect : ℕ → S → S
  pub is_connected : ℕ → S → Bool
  pub connected_clients : S → ℕ
  pub addr_to_string : Addr → String
  pub reason_to_string : Reason → String

pub record RenetServerConnection : Type 0 where
  pub client_id : ℕ
  pub ip : String
  pub cell : ℕ

pub record Cell (F : Flume) (M : Type 0) : Type 0 where
  pub disconnect_at : Option ℕ
  pub client_messages : F.Channel M

pub record RenetServerNetwork (F : Flume) (S T M Err : Type 0) : Type 0 where
  pub server : S
  pub transport : T
  pub connections : List (ℕ × RenetServerConnection)
  pub channel_connections : F.Channel (ConnectionMessages RenetServerConnection)
  pub channel_errors : F.Channel Err
  pub cells : ℕ → Cell F M
  pub next_cell : ℕ

-- `ClientChannel::iter()`.
abbrev pub client_channels : List ClientChannel
client_channels =
    ClientChannel.reliable_ordered ∷ ClientChannel.reliable_unordered ∷ ClientChannel.unreliable
    ∷ ClientChannel.world ∷ []

-- The time and the queue that a new connection starts with.
abbrev pub fresh_cell : (F : Flume) {M : Type 0} → Cell F M
fresh_cell F = record { disconnect_at = none; client_messages = F.unbounded }

module _ {F : Flume} {M : Type 0} where
  unfoldable pub set_cell : ℕ → Cell F M → (ℕ → Cell F M) → ℕ → Cell F M
  set_cell at c cells i = if i == at then c else cells i

  unfoldable pub is_to_disconnect : ℕ → Cell F M → Bool
  is_to_disconnect now c = elim c.disconnect_at [ some time ↦ leb time now | none ↦ false ]

  -- `IServerConnection::disconnect`: in 200 ms.
  unfoldable pub disconnect_later : ℕ → Cell F M → Cell F M
  disconnect_later now c = elim c.disconnect_at [
    | none ↦ record c { disconnect_at = some (now + 200) }
    | some at ↦ c
  ]

  unfoldable pub drain_client_messages : Cell F M → List M × Cell F M
  drain_client_messages c =
      let (messages, left) = F.drain c.client_messages in
      (messages, record c { client_messages = left })

module _ (F : Flume) {S T M Err : Type 0} where
  -- What `new` makes once the transport is there.
  unfoldable pub new : S → T → (ℕ → Cell F M) → RenetServerNetwork F S T M Err
  new server transport cells = record {
    server = server;
    transport = transport;
    connections = [];
    channel_connections = F.unbounded;
    channel_errors = F.unbounded;
    cells = cells;
    next_cell = 0;
  }

  unfoldable pub drain_connections :
      RenetServerNetwork F S T M Err
      → List (ConnectionMessages RenetServerConnection) × RenetServerNetwork F S T M Err
  drain_connections n =
      let (events, left) = F.drain n.channel_connections in
      (events, record n { channel_connections = left })

  unfoldable pub drain_errors :
      RenetServerNetwork F S T M Err → List Err × RenetServerNetwork F S T M Err
  drain_errors n =
      let (errors, left) = F.drain n.channel_errors in (errors, record n { channel_errors = left })

  -- `RenetServerConnection::create`, with the cell that its clones will share.
  unfoldable pub create :
      ℕ
      → String
      → RenetServerNetwork F S T M Err
      → RenetServerConnection × RenetServerNetwork F S T M Err
  create client_id ip n = (
    record { client_id = client_id; ip = ip; cell = n.next_cell },
    record n { cells = set_cell n.next_cell (fresh_cell F) n.cells; next_cell = n.next_cell + 1 },
  )

  module _ {Duration Reason Addr : Type 0} (api : ServerCrates S T Duration Err Reason Addr) where
    unfoldable pub is_connected : ℕ → RenetServerConnection → RenetServerNetwork F S T M Err → Bool
    unfolding is_to_disconnect
    is_connected now c n =
        if is_to_disconnect now (n.cells c.cell)
        then false
        else api.is_connected c.client_id n.server

    unfoldable pub connections_count : RenetServerNetwork F S T M Err → ℕ
    connections_count n = api.connected_clients n.server

    -- `M'` are the messages to a client.
    unfoldable pub send_message :
        {M' E : Type 0}
        → Codec M' E
        → NetworkMessageType
        → M'
        → RenetServerConnection
        → RenetServerNetwork F S T M Err
        → RenetServerNetwork F S T M Err
    unfolding server_channel_id map_type_channel
    send_message codec message_type message c n =
        let encoded = codec.serialize message in
        let channel = server_channel_id (map_type_channel message_type) in
        record n { server = api.send_message c.client_id channel encoded n.server }
