-- ===== src/Renet/Channels.antt =====
-- src/renet/channels.rs, src/renet/mod.rs, and the `map_type_channel` of src/renet/client.rs and
-- src/renet/server.rs: which channel carries a message, and how it is set up.
use brilliance_network.Prelude.{ℕ, ◌*◌, ◌≡◌, some, List, [], ◌∷◌, get_elem?}
use brilliance_network.Messages.{NetworkMessageType}

-- `SendType` and `ChannelConfig` are of the crate `renet`, which takes them in this form.
-- `Duration` is the type of a time.
pub data SendType (Duration : Type 0) : Type 0 where
  reliable_ordered : (resend_time : Duration) → SendType Duration
  reliable_unordered : (resend_time : Duration) → SendType Duration
  unreliable : SendType Duration

pub record ChannelConfig (Duration : Type 0) : Type 0 where
  pub channel_id : ℕ
  pub max_memory_usage_bytes : ℕ
  pub send_type : SendType Duration

pub record ConnectionConfig (Duration : Type 0) : Type 0 where
  pub available_bytes_per_tick : ℕ
  pub client_channels_config : List (ChannelConfig Duration)
  pub server_channels_config : List (ChannelConfig Duration)

pub data ClientChannel : Type 0 where
  reliable_ordered : ClientChannel
  reliable_unordered : ClientChannel
  unreliable : ClientChannel
  world : ClientChannel

pub data ServerChannel : Type 0 where
  reliable_ordered : ServerChannel
  reliable_unordered : ServerChannel
  unreliable : ServerChannel
  world : ServerChannel

unfoldable pub client_channel_id : ClientChannel → ℕ
client_channel_id ClientChannel.reliable_ordered = 0
client_channel_id ClientChannel.reliable_unordered = 1
client_channel_id ClientChannel.unreliable = 2
client_channel_id ClientChannel.world = 3

unfoldable pub server_channel_id : ServerChannel → ℕ
server_channel_id ServerChannel.reliable_ordered = 0
server_channel_id ServerChannel.reliable_unordered = 1
server_channel_id ServerChannel.unreliable = 2
server_channel_id ServerChannel.world = 3

-- `RenetClientNetwork::map_type_channel` and `RenetServerNetwork::map_type_channel`.
unfoldable pub map_type_channel : NetworkMessageType → ServerChannel
map_type_channel NetworkMessageType.reliable_ordered = ServerChannel.reliable_ordered
map_type_channel NetworkMessageType.reliable_unordered = ServerChannel.reliable_unordered
map_type_channel NetworkMessageType.unreliable = ServerChannel.unreliable
map_type_channel NetworkMessageType.world_info = ServerChannel.world

abbrev pub protocol_id : ℕ
protocol_id = 7

-- `from_secs_f32` is taken at `0.5_f32`.
module _ {Duration : Type 0} (half_second : Duration) where
  unfoldable pub get_client_channels_config : List (ChannelConfig Duration)
  unfolding client_channel_id
  get_client_channels_config =
      record {
        channel_id = client_channel_id ClientChannel.reliable_ordered;
        max_memory_usage_bytes = 1024 * 1024 * 5;
        send_type = SendType.reliable_ordered half_second;
      }
      ∷ record {
        channel_id = client_channel_id ClientChannel.reliable_unordered;
        max_memory_usage_bytes = 1024 * 1024 * 5;
        send_type = SendType.reliable_unordered half_second;
      }
      ∷ record {
        channel_id = client_channel_id ClientChannel.unreliable;
        max_memory_usage_bytes = 1024 * 256;
        send_type = SendType.unreliable;
      }
      ∷ record {
        channel_id = client_channel_id ClientChannel.world;
        max_memory_usage_bytes = 1024 * 1024 * 5;
        send_type = SendType.reliable_ordered half_second;
      }
      ∷ []

  unfoldable pub get_server_channels_config : List (ChannelConfig Duration)
  unfolding server_channel_id
  get_server_channels_config =
      record {
        channel_id = server_channel_id ServerChannel.reliable_ordered;
        max_memory_usage_bytes = 1024 * 1024 * 5;
        send_type = SendType.reliable_ordered half_second;
      }
      ∷ record {
        channel_id = server_channel_id ServerChannel.reliable_unordered;
        max_memory_usage_bytes = 1024 * 1024 * 5;
        send_type = SendType.reliable_unordered half_second;
      }
      ∷ record {
        channel_id = server_channel_id ServerChannel.unreliable;
        max_memory_usage_bytes = 1024 * 256;
        send_type = SendType.unreliable;
      }
      ∷ record {
        channel_id = server_channel_id ServerChannel.world;
        max_memory_usage_bytes = 1024 * 1024 * 5;
        send_type = SendType.reliable_ordered half_second;
      }
      ∷ []

  unfoldable pub connection_config : ConnectionConfig Duration
  unfolding get_client_channels_config get_server_channels_config
  connection_config = record {
    available_bytes_per_tick = 1024 * 1024;
    client_channels_config = get_client_channels_config;
    server_channels_config = get_server_channels_config;
  }

  -- What a type of message promises of its delivery.
  abbrev pub promised : NetworkMessageType → SendType Duration
  promised NetworkMessageType.reliable_ordered = SendType.reliable_ordered half_second
  promised NetworkMessageType.reliable_unordered = SendType.reliable_unordered half_second
  promised NetworkMessageType.unreliable = SendType.unreliable
  promised NetworkMessageType.world_info = SendType.reliable_ordered half_second

  -- The `id`-th of some channels has that id and this way of sending.
  abbrev pub Delivers : List (ChannelConfig Duration) → ℕ → SendType Duration → Type 0
  Delivers configs id way =
      (config : ChannelConfig Duration) × (get_elem? configs id ≡ some config)
      × (config.channel_id ≡ id)
      × (config.send_type ≡ way)
