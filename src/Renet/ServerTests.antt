-- ===== src/Renet/ServerTests.antt =====
-- The UDP server on examples, over the crates in memory.
use brilliance_network.Prelude.{
  ℕ, ◌≡◌, refl, true, false, none, some, [], ◌∷◌, Option, if◌then◌else◌, ◌==◌, ◌&&◌, arith, collect,
}
use brilliance_network.Channel.{queues}
use brilliance_network.Messages.{NetworkMessageType}
use brilliance_network.Server.{connect}
use brilliance_network.Tokio.Memory.{IsFifo_queues, byte_codec}
use brilliance_network.Renet.Channels.{client_channel_id, server_channel_id, map_type_channel}
use brilliance_network.Renet.Run.{ran, panicked}
use brilliance_network.Renet.Server.{
  RenetServerNetwork, RenetServerConnection, Cell, client_connected, client_disconnected,
  fresh_cell, set_cell, is_to_disconnect, disconnect_later, drain_client_messages, new,
  drain_connections, drain_errors, is_connected, connections_count, send_message,
}
use brilliance_network.Renet.Server.Step.{retain, step}
use brilliance_network.Renet.Server.Retain.{retain_lem, stays, ends, disconnect_all}
use brilliance_network.Renet.Server.Invariant.{IsValid}
use brilliance_network.Renet.Server.Lifecycle.{Exchanged, step_told}
use brilliance_network.Renet.Server.Panic.{step-panicked}
use brilliance_network.Renet.Memory.{
  MemoryServer, memory_server, memory_server_at, IsServerBox_memory,
}

-- Client 8 has sent a message and a broken one; 8 leaves and 9 arrives.
abbrev crate : MemoryServer
crate = record {
  inbox = λ i k. if i == 8 && k == 1 then (5 ∷ []) ∷ [] ∷ [] else [];
  events = client_disconnected 8 "left" ∷ client_connected 9 ∷ [];
  sent = [];
  disconnected = [];
}

-- 7 and 8 are in the table; 7 was told at 100 to leave.
abbrev seven : RenetServerConnection
seven = record { client_id = 7; ip = "127.0.0.1"; cell = 0 }

abbrev eight : RenetServerConnection
eight = record { client_id = 8; ip = "127.0.0.1"; cell = 1 }

abbrev cells : ℕ → Cell queues ℕ
cells i =
    if i == 0
    then record { disconnect_at = some 300; client_messages = ([], true) }
    else fresh_cell queues

abbrev network : RenetServerNetwork queues MemoryServer (Option ℕ) ℕ ℕ
network = record {
  server = crate;
  transport = none;
  connections = (7, seven) ∷ (8, eight) ∷ [];
  channel_connections = ([], true);
  channel_errors = ([], true);
  cells = cells;
  next_cell = 2;
}

abbrev clock : RenetServerConnection → ℕ × ℕ
clock c = (300, 301)

network-IsValid : IsValid queues network
network-IsValid = record {
  table = (
    ((refl, omega arith), ((refl, omega arith), tt)),
    ((((λ e. omega (arith, e)), λ e. omega (arith, e)), tt), (tt, tt)),
  );
  heard = λ i h. ground arith;
  told = refl;
  faults = refl;
}

step_told_example :
    (t : RenetServerNetwork queues MemoryServer (Option ℕ) ℕ ℕ) × (step queues memory_server
        byte_codec clock 3 1 network
      ≡ ran t)
    × Exchanged queues IsFifo_queues byte_codec memory_server
        (IsServerBox_memory some)
        clock
        network
        t
unfolding IsServerBox_memory client_channel_id
step_told_example =
    step_told queues IsFifo_queues byte_codec memory_server (IsServerBox_memory some) clock network
      3 1 none crate network-IsValid refl (tt, ((9, refl), tt)) (omega arith)
      (
        (omega arith, (omega arith, (omega arith, (omega arith, tt)))),
        ((omega arith, (omega arith, (omega arith, (omega arith, tt)))), tt),
      )

-- 7 becomes due between the two times at which `retain` reads the clock: it leaves the table, and the
-- crate is not told to disconnect it.
abbrev late_clock : RenetServerConnection → ℕ × ℕ
late_clock c = (299, 300)

retain_lem_example :
    ((retain queues memory_server late_clock network.connections network).0 ≡ (8, eight) ∷ [])
    × ((retain queues memory_server late_clock network.connections network).1 ≡ crate)
unfolding stays ends collect is_to_disconnect disconnect_all
retain_lem_example = retain_lem memory_server queues late_clock network.connections network

-- Client 9 arrives, and its address is not known any more.
step-panicked_example :
    step queues
      (memory_server_at (λ i. none))
      byte_codec
      clock
      3
      1
      (record network { server = record crate { events = client_connected 9 ∷ [] } })
    ≡ panicked
unfolding IsServerBox_memory client_channel_id
step-panicked_example =
    step-panicked queues IsFifo_queues byte_codec (memory_server_at (λ i. none))
      (IsServerBox_memory (λ i. none)) clock
      (record network { server = record crate { events = client_connected 9 ∷ [] } }) 2 1 none
      (record crate { events = client_connected 9 ∷ [] }) 9 []
      (record {
        table = network-IsValid.table;
        heard = network-IsValid.heard;
        told = refl;
        faults = refl;
      })
      refl refl refl
      (
        (omega arith, (omega arith, (omega arith, (omega arith, tt)))),
        ((omega arith, (omega arith, (omega arith, (omega arith, tt)))), tt),
      )

abbrev fresh_cells : ℕ → Cell queues ℕ
fresh_cells i = fresh_cell queues

abbrev arriving : MemoryServer
arriving = record crate { events = client_connected 9 ∷ [] }

abbrev nine : RenetServerConnection
nine = record { client_id = 9; ip = "127.0.0.1"; cell = 0 }

abbrev started : RenetServerNetwork queues MemoryServer (Option ℕ) ℕ ℕ
unfolding new
started = new queues arriving none fresh_cells

abbrev arrived : RenetServerNetwork queues MemoryServer (Option ℕ) ℕ ℕ
unfolding set_cell
arrived = record {
  server = record crate { events = [] };
  transport = none;
  connections = (9, nine) ∷ [];
  channel_connections = (connect nine ∷ [], true);
  channel_errors = ([], true);
  cells = set_cell 0 (fresh_cell queues) fresh_cells;
  next_cell = 1;
}

abbrev sending : RenetServerNetwork queues MemoryServer (Option ℕ) ℕ ℕ
unfolding send_message server_channel_id map_type_channel arrived
sending = send_message queues memory_server byte_codec NetworkMessageType.world_info 5 nine arrived

used :
    ((drain_connections queues arrived).0 ≡ connect nine ∷ [])
    × ((drain_errors queues arrived).0 ≡ [])
    × (is_connected queues memory_server 300 seven network ≡ false)
    × (is_connected queues memory_server 299 seven network ≡ true)
    × (connections_count queues memory_server network ≡ 0)
    × (sending.server.sent ≡ (9, 3, 5 ∷ []) ∷ [])
    × ((disconnect_later 100 (fresh_cell queues {M = ℕ})).disconnect_at ≡ some 300)
    × ((disconnect_later 900 (cells 0)).disconnect_at ≡ some 300)
    × ((drain_client_messages (cells 0)).0 ≡ [])
unfolding drain_connections drain_errors is_connected is_to_disconnect connections_count sending
    disconnect_later drain_client_messages arrived
used = (refl, refl, refl, refl, refl, refl, refl, refl, refl)
