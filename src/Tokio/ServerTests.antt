-- ===== src/Tokio/ServerTests.antt =====
-- Examples of the TCP server, with queues and streams in memory.
use brilliance_network.Prelude.{
  ℕ, ◌+◌, length, zero, suc, ◌≡◌, refl, true, false, none, some, List, [], ◌∷◌, ◌++◌, arith, map,
  All,
}
use brilliance_network.Channel.{queues, send_ok}
use brilliance_network.Tokio.Memory.{
  IsFifo_queues, sink, IsWriter_sink, source, IsReader_source, byte_codec, IsRoundTrip-byte_codec,
}
use brilliance_network.Tokio.Frame.{write_frame}
use brilliance_network.Tokio.Writer.{Writing, write_one, flush_all, write_queued, write_received}
use brilliance_network.Tokio.Client.{TokioClient, client_reader_task}
use brilliance_network.Tokio.EndToEnd.{send_each, messages_arrive}
use brilliance_network.Tokio.Connection.{Cell, send_message}
use brilliance_network.Tokio.Entries.{insert, remove, lookup}
use brilliance_network.Tokio.Server.{
  TokioServer, TokioServerConnection, connect, disconnect, accept_one, accept_all, accept_new,
  set_cell, should_remove, to_remove, remove_one, remove_all, step, drain_connections, drain_errors,
  connections_count, new,
}
use brilliance_network.Tokio.Server.Removal.{gone}
use brilliance_network.Tokio.Server.Accept.{IsValid, entries, welcome}
use brilliance_network.Tokio.Server.Due.{Parted, tasks}
use brilliance_network.Tokio.Server.Step.{step_lem}
use brilliance_network.Tokio.Server.History.{
  Round, arrivals, connects, disconnects, run, run-new-connections_count,
}

abbrev cell : Cell queues ℕ
cell = record {
  connected = true;
  disconnect_at = none;
  client_messages = ([], true);
  outgoing = ([], true);
}

abbrev connection : ℕ → ℕ → TokioServerConnection
connection id at = record { client_id = id; ip = "host"; cell = at }

-- Two connections, the first of which has gone, and one that arrives.
abbrev cells : ℕ → Cell queues ℕ
cells zero = record cell { connected = false }
cells (suc n) = cell

abbrev server : TokioServer queues ℕ ℕ ℕ ℕ
server = record {
  new_connections_rx = ((50, 60) ∷ [], true);
  connections = (1, connection 1 0) ∷ (2, connection 2 1) ∷ [];
  channel_connections = ([], true);
  channel_errors = ([], true);
  next_client_id = 3;
  cells = cells;
  next_cell = 2;
  spawned = [];
}

abbrev stepped : TokioServer queues ℕ ℕ ℕ ℕ
stepped = step queues (λ a. "host") (λ s. s) (λ c. 100) server

steps :
    (stepped.connections ≡ (2, connection 2 1) ∷ (3, connection 3 2) ∷ [])
    × ((drain_connections queues stepped).0
        ≡ connect (connection 3 2) ∷ disconnect 1 "Disconnected" ∷ [])
    × ((drain_errors queues stepped).0 ≡ [])
    × (connections_count queues stepped ≡ 2)
    × (connections_count queues
          (new queues {M = ℕ} {E = ℕ} {Stream = ℕ} {Addr = ℕ} ([], true) cells)
        ≡ 0)
unfolding step accept_new accept_all accept_one set_cell should_remove to_remove remove_one
    remove_all insert remove lookup drain_connections drain_errors connections_count new send_ok
steps = (refl, refl, refl, refl, refl)

server-IsValid : IsValid queues IsFifo_queues server
server-IsValid = record {
  distinct = (((λ e. omega (arith, e)), tt), (tt, tt));
  ids = (omega arith, (omega arith, tt));
  addresses = (omega arith, (omega arith, tt));
  heard = refl;
}

abbrev arrived : List (ℕ × ℕ)
arrived = (50, 60) ∷ []

step_lem_example :
    let arrivals = entries (λ a. "host") 3 2 arrived in
    (stay : List (ℕ × TokioServerConnection)) × (due : List (ℕ × TokioServerConnection)) × Parted
      (λ c. 100)
      cells
      server.connections
      stay
      due
    × (stepped.connections ≡ stay ++ arrivals)
    × (stepped.channel_connections.0 ≡ [] ++ map welcome arrivals ++ map (λ e. gone e.0) due)
    × All {A = ℕ × TokioServerConnection} (λ e. (stepped.cells e.1.cell).connected ≡ false) due
    × (stepped.spawned ≡ [] ++ tasks (λ s. s) 2 arrived)
    × IsValid queues IsFifo_queues stepped
    × (stepped.next_client_id ≡ 3 + length arrivals)
step_lem_example =
    step_lem queues IsFifo_queues (λ a. "host") (λ s. s) (λ c. 100) server server-IsValid
      (omega arith)

-- Two streams arrive; then the second connection goes.
abbrev rounds : List (Round queues ℕ ℕ ℕ)
rounds =
    record { arrived = ((50, 60) ∷ (51, 61) ∷ [], true); cells = λ n. cell; now = λ c. 100 }
    ∷ record {
      arrived = ([], true);
      cells = λ n. record cell { connected = false };
      now = λ c. 200;
    }
    ∷ []

abbrev unstarted : TokioServer queues ℕ ℕ ℕ ℕ
unstarted = new queues ([], true) cells

run-new-connections_count_example :
    let (events, t) = run queues (λ a. "host") (λ s. s) unstarted rounds in
    (connects events ≡ disconnects events + connections_count queues t)
    × IsValid queues IsFifo_queues t
unfolding arrivals
run-new-connections_count_example =
    run-new-connections_count queues (λ a. "host") (λ s. s) IsFifo_queues ([], true) cells rounds
      (omega arith)

-- Two messages from a connection of the server to a client.
abbrev client : TokioClient queues ℕ ℕ ℕ
client = record {
  connected = true;
  debug_info = 0;
  rtt_nanos = 0;
  last_ping_sent = none;
  incoming_messages = (5 ∷ [], true);
  incoming_errors = ([], true);
  outgoing_messages = ([], true);
}

abbrev frames : List (List ℕ)
frames = (0 ∷ 7 ∷ []) ∷ (0 ∷ 8 ∷ []) ∷ []

abbrev begun : Writing queues (List ℕ)
begun = record { sink = []; outgoing = ((0 ∷ 8 ∷ []) ∷ [], true); connected = true }

abbrev flushed : Writing queues (List ℕ)
flushed = record {
  sink = 2 ∷ 0 ∷ 0 ∷ 0 ∷ 0 ∷ 7 ∷ 2 ∷ 0 ∷ 0 ∷ 0 ∷ 0 ∷ 8 ∷ [];
  outgoing = ([], true);
  connected = true;
}

messages_arrive_example :
    (u : TokioClient queues ℕ ℕ ℕ) × (client_reader_task queues byte_codec source
        (λ s. 100)
        4
        flushed.sink
        client
      ≡ some u)
    × (u.incoming_messages.0 ≡ (5 ∷ []) ++ 7 ∷ 8 ∷ [])
    × (u.incoming_errors.0 ≡ [])
unfolding IsReader_source IsWriter_sink send_each send_message send_ok write_received write_queued
    write_one flush_all write_frame
messages_arrive_example =
    messages_arrive queues IsFifo_queues byte_codec IsRoundTrip-byte_codec sink IsWriter_sink source
      IsReader_source (λ s. 100) 7 (8 ∷ []) cell (0 ∷ 7 ∷ []) ((0 ∷ 8 ∷ []) ∷ [], true) begun
      flushed flushed.sink client 4 refl refl refl refl refl refl refl refl refl refl
      (omega arith, (omega arith, tt)) (omega arith)
