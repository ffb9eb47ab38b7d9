-- ===== src/Renet/EndToEndTests.antt =====
-- Messages from the UDP server to a client on an example, over the crates in memory.
use Prim.Native.String.{String}
use mathlib.Core.List.Perm
use brilliance_network.Prelude.{
  ℕ, ◌≡◌, refl, true, false, none, some, List, [], ◌∷◌, Option, if◌then◌else◌, ◌==◌, arith, collect,
  All, ◌++◌,
}
use brilliance_network.Channel.{queues}
use brilliance_network.Fixed.{Fixed, Float_Fixed}
use brilliance_network.Messages.{NetworkMessageType}
use brilliance_network.Tokio.Client.{DebugInfo}
use brilliance_network.Tokio.Memory.{IsFifo_queues, byte_codec, IsRoundTrip-byte_codec}
use brilliance_network.Renet.Channels.{
  ServerChannel, server_channel_id, map_type_channel, get_server_channels_config,
}
use brilliance_network.Renet.Run.{ran}
use brilliance_network.Renet.Client.{RenetClientNetwork, server_channels, step}
use brilliance_network.Renet.Client.Receiving.{waiting}
use brilliance_network.Renet.Server.{
  RenetServerNetwork, RenetServerConnection, fresh_cell, new, send_message,
}
use brilliance_network.Renet.EndToEnd.{
  send_messages, Comes, way_of, Taken, carried, messages_delivered,
}
use brilliance_network.Renet.Memory.{
  MemoryClient, memory_client, IsInbox_memory, MemoryServer, memory_server, IsOutbox_memory,
}

abbrev panel : DebugInfo String
panel = record {
  empty = "";
  insert_bool = λ d name b. name;
  insert_time = λ d name nanos color. color;
}

abbrev nanos : Fixed → Option ℕ
nanos x = some 30

abbrev panel_f64 : String → String → Fixed → String
panel_f64 d name x = d

abbrev server : RenetServerNetwork queues MemoryServer (Option ℕ) ℕ ℕ
unfolding new
server =
    new queues (record { inbox = λ i k. []; events = []; sent = []; disconnected = [] }) none
      (λ i. fresh_cell queues)

abbrev nine : RenetServerConnection
nine = record { client_id = 9; ip = "127.0.0.1"; cell = 0 }

abbrev messages : List (NetworkMessageType × ℕ)
messages =
    (NetworkMessageType.world_info, 5)
    ∷ (NetworkMessageType.unreliable, 7)
    ∷ (NetworkMessageType.reliable_ordered, 6)
    ∷ (NetworkMessageType.unreliable, 8)
    ∷ (NetworkMessageType.reliable_unordered, 2)
    ∷ (NetworkMessageType.reliable_unordered, 3)
    ∷ []

-- What comes of them on the client's side: 7 is lost, and 3 overtakes 2.
abbrev brought : ℕ → List (List ℕ)
brought k =
    if k == 0
    then (6 ∷ []) ∷ []
    else if k == 1
    then (3 ∷ []) ∷ (2 ∷ []) ∷ []
    else if k == 2
    then (8 ∷ []) ∷ []
    else if k == 3
    then (5 ∷ []) ∷ []
    else []

abbrev crate : MemoryClient
crate = record { inbox = brought; sent = []; is_disconnected = false }

abbrev network : RenetClientNetwork queues MemoryClient (Option ℕ) ℕ ℕ ℕ String
network = record {
  client = crate;
  transport = none;
  debug_info = "";
  network_decoder_out = (4 ∷ [], true);
  network_errors_out = ([], true);
  network_client_sended = ([], true);
}

nothing_before :
    (k : ServerChannel) → (IsOutbox_memory some).outbox server.server 9 (server_channel_id k) ≡ []
unfolding IsOutbox_memory collect server
nothing_before k = refl

all_brought :
    (k : ServerChannel)
    → Comes {Duration = ℕ} (way_of 500 k) (waiting IsInbox_memory crate k) (
        (IsOutbox_memory some).outbox
          (send_messages queues memory_server byte_codec nine messages server).server
          9
          (server_channel_id k))
unfolding IsInbox_memory IsOutbox_memory collect server server_channel_id send_messages send_message
    map_type_channel way_of get_server_channels_config
all_brought ServerChannel.reliable_ordered = refl
all_brought ServerChannel.reliable_unordered = Perm.swap (2 ∷ []) (3 ∷ []) []
all_brought ServerChannel.unreliable = ((7 ∷ []) ∷ [], Perm.swap (7 ∷ []) (8 ∷ []) [])
all_brought ServerChannel.world = refl

messages-Taken : Taken queues (IsOutbox_memory some) byte_codec nine messages server
unfolding Taken IsOutbox_memory
messages-Taken = (refl, (refl, (refl, (refl, (refl, (refl, tt))))))

messages_delivered_example :
    (t : RenetClientNetwork queues MemoryClient (Option ℕ) ℕ ℕ ℕ String) × (got : ServerChannel
      → List ℕ)
    × (step queues memory_client byte_codec panel panel_f64 nanos 3 1 network ≡ ran (t, true))
    × All (λ k. Comes {Duration = ℕ} (way_of 500 k) (got k) (carried messages k)) server_channels
    × (queues.pending t.network_decoder_out ≡ (4 ∷ []) ++ collect got server_channels)
    × (queues.pending t.network_errors_out ≡ [])
unfolding IsInbox_memory server_channel_id
messages_delivered_example =
    messages_delivered queues IsFifo_queues byte_codec IsRoundTrip-byte_codec memory_client
      IsInbox_memory panel panel_f64 nanos memory_server (IsOutbox_memory some) nine messages server
      network 500 3 1 30 none crate none none crate nothing_before messages-Taken all_brought
      (record { messages = refl; errors = refl }) refl refl refl refl
      (omega arith, (omega arith, (omega arith, (omega arith, tt))))
