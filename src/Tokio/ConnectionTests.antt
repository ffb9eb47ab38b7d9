-- ===== src/Tokio/ConnectionTests.antt =====
-- Examples of one connection of the TCP server, with queues and streams in memory.
use brilliance_network.Prelude.{
  collect, ℕ, ◌≡◌, refl, true, false, none, some, List, [], ◌∷◌, arith,
}
use brilliance_network.Channel.{queues, send_ok}
use brilliance_network.Tokio.Memory.{IsFifo_queues, sink, source, IsReader_source, byte_codec}
use brilliance_network.Tokio.Frame.{read_frame}
use brilliance_network.Tokio.Frame.RoundTrip.{encode, encode_all}
use brilliance_network.Tokio.Reader.{continues, read_loop}
use brilliance_network.Tokio.Connection.Frames.{sent_by, answer_of, fault_of}
use brilliance_network.Tokio.Connection.Delivery.{connection_reader_task-stream}
use brilliance_network.Tokio.Connection
use brilliance_network.Tokio.Connection.{
  Cell, ConnectionReader, is_to_disconnect, is_connected, drain_client_messages, send_message,
  disconnect_later, connection_reader_task, connection_writer_round, slept,
}

abbrev cell : Cell queues ℕ
cell = record {
  connected = true;
  disconnect_at = none;
  client_messages = ([], true);
  outgoing = ([], true);
}

-- A message is queued behind its kind; a connection that has gone drops it.
sent :
    ((send_message queues byte_codec 7 cell).outgoing ≡ ((0 ∷ 7 ∷ []) ∷ [], true))
    × (send_message queues byte_codec 7 (record cell { connected = false })
        ≡ record cell { connected = false })
unfolding send_message send_ok
sent = (refl, refl)

-- Disconnected for the interface after 200 ms; a second call does not put it off.
left :
    let c = disconnect_later queues 150 (disconnect_later queues 100 cell) in
    (is_connected queues 299 c ≡ true) × (is_connected queues 300 c ≡ false)
unfolding disconnect_later is_connected is_to_disconnect
left = (refl, refl)

-- A message, a ping, and the end of the stream.
connection_reads :
    connection_reader_task queues byte_codec source 9
      (encode_all ((0 ∷ 7 ∷ []) ∷ (1 ∷ []) ∷ []))
      (record { cell = cell; errors = ([], true) })
    ≡ some (record {
      cell = record {
        connected = false;
        disconnect_at = none;
        client_messages = (7 ∷ [], true);
        outgoing = ((2 ∷ []) ∷ [], true);
      };
      errors = ([], true);
    })
unfolding connection_reader_task Connection.on_read_error Connection.on_frame Connection.on_message
    Connection.on_ping read_loop read_frame encode_all encode send_ok
connection_reads = refl

abbrev reading : ConnectionReader queues ℕ ℕ
reading = record { cell = cell; errors = ([], true) }

-- A message, a ping and a message that does not decode.
abbrev received_frames : List (List ℕ)
received_frames = (0 ∷ 7 ∷ []) ∷ (1 ∷ []) ∷ (0 ∷ []) ∷ []

connection_reader_task-stream_example :
    (t : ConnectionReader queues ℕ ℕ) × (connection_reader_task queues byte_codec source 9
        (encode_all received_frames)
        reading
      ≡ some t)
    × (t.cell.client_messages.0 ≡ 7 ∷ [])
    × (t.cell.outgoing.0 ≡ (2 ∷ []) ∷ [])
    × (t.errors.0 ≡ Connection.message_decode 0 ∷ [])
    × (t.cell.connected ≡ false)
unfolding IsReader_source collect sent_by answer_of fault_of
connection_reader_task-stream_example =
    connection_reader_task-stream queues IsFifo_queues byte_codec source IsReader_source reading
      received_frames (encode_all received_frames) 9
      (record { messages = refl; answers = refl; errors = refl })
      (omega arith, (omega arith, (omega arith, tt))) refl (omega arith)

connection_sleeps :
    connection_writer_round queues sink 1 slept
      (record { sink = []; outgoing = ([], true); connected = true })
    ≡ some (continues (record { sink = []; outgoing = ([], true); connected = true }))
unfolding connection_writer_round
connection_sleeps = refl

drained :
    (drain_client_messages queues (record cell { client_messages = (4 ∷ [], true) })).0 ≡ 4 ∷ []
unfolding drain_client_messages
drained = refl
