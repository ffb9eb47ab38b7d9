-- ===== src/Renet/Client.antt =====
-- src/renet/client.rs: the UDP client. The crates `renet` and `renet_netcode` are the parameter
-- `ClientCrates`, whose calls change the state that they are given. The locks are those of one task at
-- a time. A panic of `unwrap` is `panicked`.
pub mod Receiving
pub mod Channels
pub mod Delivery
pub mod Errors
use Prim.Native.String.{String}
use brilliance_network.Prelude.{
  ℕ, Bool, true, false, not, Option, none, some, List, [], ◌∷◌, if◌then◌else◌,
}
use brilliance_network.Float.{Float}
use brilliance_network.Channel.{Flume, Codec, ok, err}
use brilliance_network.Messages.{NetworkMessageType}
use brilliance_network.Tokio.Client.{DebugInfo, ping_color}
use brilliance_network.Renet.Channels.{ServerChannel, server_channel_id, map_type_channel}
use brilliance_network.Renet.Run.{Run, ran, ◌>>=◌, unwrap, while_some}

-- `RenetClient` is `C` and `NetcodeClientTransport` is `T`. A `Result<(), _>` is an optional error.
pub record ClientCrates (C T R Duration Err Reason : Type 0) : Type 0 where
  pub is_disconnected : C → Bool
  pub rtt : C → R
  pub bytes_received_per_sec : C → R
  pub bytes_sent_per_sec : C → R
  pub packet_loss : C → R
  pub update : Duration → C → C
  pub send_message : ℕ → List ℕ → C → C
  pub receive_message : ℕ → C → Option (List ℕ × C)
  pub transport_update : Duration → T → C → Option Err × T × C
  pub send_packets : T → C → Option Err × T × C
  pub disconnect_reason : T → Option Reason
  pub disconnect : T → T

-- `e.to_string()` and `message decode error: {}`.
pub data ErrorText (E Err : Type 0) : Type 0 where
  transport_failed : Err → ErrorText E Err
  message_decode : E → ErrorText E Err

pub record RenetClientNetwork (F : Flume) (C T M E Err D : Type 0) : Type 0 where
  pub client : C
  pub transport : T
  pub debug_info : D
  pub network_decoder_out : F.Channel M
  pub network_errors_out : F.Channel (ErrorText E Err)
  pub network_client_sended : F.Channel (ℕ × List ℕ)

-- `ServerChannel::iter()`.
abbrev pub server_channels : List ServerChannel
server_channels =
    ServerChannel.reliable_ordered ∷ ServerChannel.reliable_unordered ∷ ServerChannel.unreliable
    ∷ ServerChannel.world ∷ []

-- The loop over what the queue of outgoing messages held.
unfoldable pub send_all :
    {C T R Duration Err Reason : Type 0}
    → ClientCrates C T R Duration Err Reason
    → List (ℕ × List ℕ)
    → C
    → C
send_all api [] c = c
send_all api ((channel, message) ∷ ms) c = send_all api ms (api.send_message channel message c)

-- What the debug panel shows for a client with this round trip.
unfoldable pub debug_of :
    {C T R Duration Err Reason D : Type 0}
    → ⦃f : Float R⦄ → ClientCrates C T R Duration Err Reason
    → DebugInfo D
    → (insert_f64 : D → String → R → D) → ℕ
    → C
    → D
unfolding ping_color
debug_of ⦃f⦄ api info insert_f64 rtt_duration c =
    let color = ping_color (f.mul (api.rtt c) (f.literal 1000 0)) in
    let connected = info.insert_bool info.empty "is_connected" (not (api.is_disconnected c)) in
    let ping = info.insert_time connected "ping" rtt_duration color in
    let received = insert_f64 ping "bytes_received_per_sec" (api.bytes_received_per_sec c) in
    let sent = insert_f64 received "bytes_sent_per_sec" (api.bytes_sent_per_sec c) in
    insert_f64 sent "packet_loss" (api.packet_loss c)

module _ (F : Flume) {C T M E Err D : Type 0} where
  -- What `new` makes once the transport is there.
  unfoldable pub new : C → T → D → RenetClientNetwork F C T M E Err D
  new client transport debug_info = record {
    client = client;
    transport = transport;
    debug_info = debug_info;
    network_decoder_out = F.unbounded;
    network_errors_out = F.unbounded;
    network_client_sended = F.unbounded;
  }

  unfoldable pub send_network_error :
      ErrorText E Err
      → RenetClientNetwork F C T M E Err D
      → Run (RenetClientNetwork F C T M E Err D)
  send_network_error message n = do
    errors ← unwrap (F.send message n.network_errors_out)
    ran (record n { network_errors_out = errors })

  -- `if let Err(e) = ..` around `send_network_error`.
  unfoldable pub report :
      Option Err → RenetClientNetwork F C T M E Err D → Run (RenetClientNetwork F C T M E Err D)
  unfolding send_network_error
  report none n = ran n
  report (some e) n = send_network_error (transport_failed e) n

  unfoldable pub iter_server_messages :
      RenetClientNetwork F C T M E Err D → List M × RenetClientNetwork F C T M E Err D
  iter_server_messages n =
      let (messages, left) = F.drain n.network_decoder_out in
      (messages, record n { network_decoder_out = left })

  unfoldable pub iter_errors :
      RenetClientNetwork F C T M E Err D
      → List (ErrorText E Err) × RenetClientNetwork F C T M E Err D
  iter_errors n =
      let (errors, left) = F.drain n.network_errors_out in
      (errors, record n { network_errors_out = left })

  -- `M'` are the messages to the server.
  unfoldable pub send_message :
      {M' : Type 0}
      → Codec M' E
      → NetworkMessageType
      → M'
      → RenetClientNetwork F C T M E Err D
      → Run (RenetClientNetwork F C T M E Err D)
  unfolding server_channel_id map_type_channel
  send_message codec message_type message n = do
    let encoded = codec.serialize message
    let msg : ℕ × List ℕ = (server_channel_id (map_type_channel message_type), encoded)
    queue ← unwrap (F.send msg n.network_client_sended)
    ran (record n { network_client_sended = queue })

  module _ {R Duration Reason : Type 0} (api : ClientCrates C T R Duration Err Reason) where
    unfoldable pub is_connected : RenetClientNetwork F C T M E Err D → Bool
    is_connected n = elim (api.disconnect_reason n.transport) [ none ↦ true | some r ↦ false ]

    unfoldable pub disconnect :
        RenetClientNetwork F C T M E Err D → RenetClientNetwork F C T M E Err D
    disconnect n = elim (api.disconnect_reason n.transport) [
      | none ↦ record n { transport = api.disconnect n.transport }
      | some r ↦ n
    ]

    -- `from_secs_f64` of the standard library panics on a time that no `Duration` has; a duration is
    -- its nanoseconds.
    unfoldable pub show_debug_info :
        ⦃f : Float R⦄
        → DebugInfo D
        → (insert_f64 : D → String → R → D) → (from_secs_f64 : R → Option ℕ)
        → RenetClientNetwork F C T M E Err D
        → Run (RenetClientNetwork F C T M E Err D)
    show_debug_info info insert_f64 from_secs_f64 n = do
      rtt_duration ← unwrap (from_secs_f64 (api.rtt n.client))
      ran (record n { debug_info = debug_of api info insert_f64 rtt_duration n.client })

    module _ (codec : Codec M E) where
      -- A message that has come from the server.
      unfoldable pub on_server_message :
          List ℕ → RenetClientNetwork F C T M E Err D → Run (RenetClientNetwork F C T M E Err D)
      unfolding send_network_error
      on_server_message server_message n = elim (codec.deserialize server_message) [
        | err e ↦ send_network_error (message_decode e) n
        | ok decoded ↦ do
          messages ← unwrap (F.send decoded n.network_decoder_out)
          ran (record n { network_decoder_out = messages })
      ]

      unfoldable pub receive_next :
          ServerChannel
          → RenetClientNetwork F C T M E Err D
          → Option (List ℕ × RenetClientNetwork F C T M E Err D)
      unfolding server_channel_id
      receive_next channel_type n =
          elim (api.receive_message (server_channel_id channel_type) n.client) [
            | none ↦ none
            | some (message, client) ↦ some (message, record n { client = client })
          ]

      -- `fuel` bounds the messages of each channel.
      unfoldable pub receive_all :
          ℕ
          → List ServerChannel
          → RenetClientNetwork F C T M E Err D
          → Run (RenetClientNetwork F C T M E Err D)
      receive_all fuel [] n = ran n
      receive_all fuel (channel_type ∷ channels) n =
          while_some (receive_next channel_type) on_server_message fuel n >>= λ m.
          receive_all fuel channels m

      -- The part of `step` after the update of the transport.
      unfoldable pub exchange :
          ℕ → RenetClientNetwork F C T M E Err D → Run (RenetClientNetwork F C T M E Err D × Bool)
      unfolding send_all report receive_all
      exchange fuel n = do
        let (outgoing, left) = F.drain n.network_client_sended
        let (failed, transport', client) =
            api.send_packets n.transport (send_all api outgoing n.client)
        reported ←
            report failed
              (record n { client = client; transport = transport'; network_client_sended = left })
        received ← receive_all fuel server_channels reported
        ran (received, true)

      unfoldable pub step :
          ⦃f : Float R⦄
          → DebugInfo D
          → (insert_f64 : D → String → R → D) → (from_secs_f64 : R → Option ℕ) → ℕ
          → Duration
          → RenetClientNetwork F C T M E Err D
          → Run (RenetClientNetwork F C T M E Err D × Bool)
      unfolding show_debug_info send_network_error exchange
      step info insert_f64 from_secs_f64 fuel delta n =
          if api.is_disconnected n.client then ran (n, false) else (do
            shown ← show_debug_info info insert_f64 from_secs_f64 n
            let (failed, transport', client) =
                api.transport_update delta n.transport (api.update delta n.client)
            let updated = record shown { client = client; transport = transport' }
            elim failed [
              | some e ↦ (do
                told ← send_network_error (transport_failed e) updated
                ran (told, false))
              | none ↦ exchange fuel updated
            ])
