-- ===== src/Renet/Server/History.antt =====
-- The UDP server from its start, by the calls of the program that uses it.
use brilliance_network.Prelude.{ℕ, ◌<◌, ◌≡◌, none, some, List, [], ◌++◌, length, All, Option}
use brilliance_network.Channel.{Flume, IsFifo, Codec}
use brilliance_network.Messages.{NetworkMessageType}
use brilliance_network.Server.{ConnectionMessages}
use brilliance_network.Tokio.Entries.{lookup}
use brilliance_network.Renet.Run.{ran}
use brilliance_network.Renet.Server.{
  ServerCrates, RenetServerConnection, RenetServerNetwork, client_channels, set_cell,
  disconnect_later, drain_client_messages, drain_connections, send_message,
}
use brilliance_network.Renet.Server.Step.{step}
use brilliance_network.Renet.Server.Events.{IsServerBox, HasAddr}
use brilliance_network.Renet.Server.Delivery.{wait}
use brilliance_network.Renet.Server.Invariant.{IsValid}
use brilliance_network.Renet.Server.View.{follow, IsWithin}

module _ (F : Flume) (laws : IsFifo F) {S T M M' E E' Err : Type 0} (codec : Codec M E)
    (codec' : Codec M' E') {Duration Reason Addr : Type 0}
    (api : ServerCrates S T Duration Err Reason Addr) (box : IsServerBox api) where
  open box use {events}

  module _ (start : RenetServerNetwork F S T M Err) where
    -- `Reaches told n`: some calls lead from the start to `n`, and `drain_connections` has given `told`
    -- so far. The transport knows the clients that have connected, and a step has fuel enough.
    pub data Reaches
        : List (ConnectionMessages RenetServerConnection)
          → RenetServerNetwork F S T M Err
          → Type 0 where
      begins : Reaches [] start
      steps :
          {told : List (ConnectionMessages RenetServerConnection)}
          {n t : RenetServerNetwork F S T M Err} (now : RenetServerConnection → ℕ × ℕ) (fuel : ℕ)
          (delta : Duration) (transport : T) (server : S)
          → Reaches told n
          → api.transport_update delta n.transport (api.update delta n.server)
            ≡ (none, transport, server)
          → All (HasAddr api transport) (events server)
          → length (events server) < fuel
          → All
              (λ e.
                All (λ k. length (wait F laws codec api box e.1 server k) < fuel) client_channels)
              n.connections
          → step F api codec now fuel delta n ≡ ran t
          → Reaches told t
      fails :
          {told : List (ConnectionMessages RenetServerConnection)}
          {n t : RenetServerNetwork F S T M Err} (now : RenetServerConnection → ℕ × ℕ) (fuel : ℕ)
          (delta : Duration) (e : Err) (transport : T) (server : S)
          → Reaches told n
          → api.transport_update delta n.transport (api.update delta n.server)
            ≡ (some e, transport, server)
          → step F api codec now fuel delta n ≡ ran t
          → Reaches told t
      drains :
          {told : List (ConnectionMessages RenetServerConnection)}
          {n : RenetServerNetwork F S T M Err}
          → Reaches told n
          → Reaches (told ++ (drain_connections F n).0) (drain_connections F n).1
      sends :
          {told : List (ConnectionMessages RenetServerConnection)}
          {n : RenetServerNetwork F S T M Err} (type : NetworkMessageType) (m : M')
          (c : RenetServerConnection)
          → Reaches told n
          → Reaches told (send_message F api codec' type m c n)
      reads :
          {told : List (ConnectionMessages RenetServerConnection)}
          {n : RenetServerNetwork F S T M Err} (i : ℕ)
          → Reaches told n
          → Reaches told
              (record n { cells = set_cell i (drain_client_messages (n.cells i)).1 n.cells })
      closes :
          {told : List (ConnectionMessages RenetServerConnection)}
          {n : RenetServerNetwork F S T M Err} (i now : ℕ)
          → Reaches told n
          → Reaches told
              (record n { cells = set_cell i (disconnect_later now (n.cells i)) n.cells })

  abbrev view :
      List (ConnectionMessages RenetServerConnection)
      → RenetServerNetwork F S T M Err
      → ℕ
      → Option RenetServerConnection
  view told n = follow (told ++ F.pending n.channel_connections) (λ i. none)

  record Follows (told : List (ConnectionMessages RenetServerConnection))
      (n : RenetServerNetwork F S T M Err) : Type 0 where
    valid : IsValid F n
    within : IsWithin (λ i. lookup i n.connections) (view told n)
