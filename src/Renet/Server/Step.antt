-- ===== src/Renet/Server/Step.antt =====
-- src/renet/server.rs: `step` of the UDP server.
use brilliance_network.Prelude.{ℕ, not, Option, none, some, List, [], ◌∷◌, if◌then◌else◌}
use brilliance_network.Channel.{Flume, Codec, ok, err}
use brilliance_network.Server.{connect, disconnect}
use brilliance_network.Tokio.Entries.{insert, remove}
use brilliance_network.Renet.Channels.{ClientChannel, client_channel_id}
use brilliance_network.Renet.Run.{Run, ran, ◌>>=◌, unwrap, while_some}
use brilliance_network.Renet.Server.{
  ServerEvent, client_connected, client_disconnected, ServerCrates, RenetServerConnection,
  RenetServerNetwork, client_channels, set_cell, is_to_disconnect, create,
}

module _ (F : Flume) {S T M Err Duration Reason Addr : Type 0}
    (api : ServerCrates S T Duration Err Reason Addr) where
  unfoldable pub receive_next :
      ℕ
      → ClientChannel
      → RenetServerNetwork F S T M Err
      → Option (List ℕ × RenetServerNetwork F S T M Err)
  unfolding client_channel_id
  receive_next client_id channel_type n =
      elim (api.receive_message client_id (client_channel_id channel_type) n.server) [
        | none ↦ none
        | some (message, server) ↦ some (message, record n { server = server })
      ]

  module _ {E : Type 0} (codec : Codec M E) where
    -- A message of this connection's client. An error is logged.
    unfoldable pub on_client_message :
        RenetServerConnection
        → List ℕ
        → RenetServerNetwork F S T M Err
        → Run (RenetServerNetwork F S T M Err)
    unfolding set_cell
    on_client_message connection client_message n = elim (codec.deserialize client_message) [
      | err e ↦ ran n
      | ok decoded ↦ do
        let cell = n.cells connection.cell
        messages ← unwrap (F.send decoded cell.client_messages)
        ran (record n {
          cells = set_cell connection.cell (record cell { client_messages = messages }) n.cells;
        })
    ]

    -- `fuel` bounds the messages of each channel of a client.
    unfoldable pub receive_channels :
        ℕ
        → RenetServerConnection
        → List ClientChannel
        → RenetServerNetwork F S T M Err
        → Run (RenetServerNetwork F S T M Err)
    receive_channels fuel connection [] n = ran n
    receive_channels fuel connection (channel_type ∷ channels) n =
        while_some (receive_next connection.client_id channel_type) (on_client_message connection)
          fuel n
        >>= λ m. receive_channels fuel connection channels m

    unfoldable pub receive_connections :
        ℕ
        → List (ℕ × RenetServerConnection)
        → RenetServerNetwork F S T M Err
        → Run (RenetServerNetwork F S T M Err)
    unfolding receive_channels
    receive_connections fuel [] n = ran n
    receive_connections fuel ((key, connection) ∷ connections) n =
        receive_channels fuel connection client_channels n >>= λ m.
        receive_connections fuel connections m

  unfoldable pub next_event :
      RenetServerNetwork F S T M Err → Option (ServerEvent Reason × RenetServerNetwork F S T M Err)
  next_event n = elim (api.get_event n.server) [
    | none ↦ none
    | some (event, server) ↦ some (event, record n { server = server })
  ]

  unfoldable pub on_event :
      ServerEvent Reason → RenetServerNetwork F S T M Err → Run (RenetServerNetwork F S T M Err)
  unfolding create
  on_event (client_connected client_id) n = do
    addr ← unwrap (api.client_addr client_id n.transport)
    let (connection, m) = create F client_id (api.addr_to_string addr) n
    events ← unwrap (F.send (connect connection) m.channel_connections)
    ran (record m {
      channel_connections = events;
      connections = insert connection.client_id connection m.connections;
    })
  on_event (client_disconnected client_id reason) n = do
    let left = remove client_id n.connections
    let message = disconnect client_id (api.reason_to_string reason)
    events ← unwrap (F.send message n.channel_connections)
    ran (record n { channel_connections = events; connections = left })

  -- `retain` with its closure, which reads the clock twice for each connection: `now` gives the times.
  unfoldable pub retain :
      (now : RenetServerConnection → ℕ × ℕ)
      → List (ℕ × RenetServerConnection)
      → RenetServerNetwork F S T M Err
      → List (ℕ × RenetServerConnection) × S
  unfolding is_to_disconnect
  retain now [] n = ([], n.server)
  retain now ((key, c) ∷ connections) n =
      let cell = n.cells c.cell in
      let server =
        if is_to_disconnect (now c).0 cell then api.disconnect c.client_id n.server else n.server in
      let (kept, server') = retain now connections (record n { server = server }) in
      (if not (is_to_disconnect (now c).1 cell) then (key, c) ∷ kept else kept, server')

  -- The part of `step` after the update of the transport.
  unfoldable pub exchange :
      {E : Type 0}
      → Codec M E
      → (now : RenetServerConnection → ℕ × ℕ) → ℕ
      → RenetServerNetwork F S T M Err
      → Run (RenetServerNetwork F S T M Err)
  unfolding receive_connections
  exchange codec now fuel n = do
    received ← receive_connections codec fuel n.connections n
    told ← while_some next_event on_event fuel received
    let (transport, server) = api.send_packets told.transport told.server
    let sent = record told { transport = transport; server = server }
    let (kept, server') = retain now sent.connections sent
    ran (record sent { connections = kept; server = server' })

  unfoldable pub step :
      {E : Type 0}
      → Codec M E
      → (now : RenetServerConnection → ℕ × ℕ) → ℕ
      → Duration
      → RenetServerNetwork F S T M Err
      → Run (RenetServerNetwork F S T M Err)
  unfolding exchange
  step codec now fuel delta n =
      let (failed, transport, server) =
        api.transport_update delta n.transport (api.update delta n.server) in
      let updated = record n { transport = transport; server = server } in
      elim failed [
        | some e ↦ (do
          errors ← unwrap (F.send e updated.channel_errors)
          ran (record updated { channel_errors = errors }))
        | none ↦ exchange codec now fuel updated
      ]
