-- ===== src/Renet/ClientTests.antt =====
-- The UDP client on examples, over the crates in memory.
use Prim.Native.String.{String}
use brilliance_network.Prelude.{
  ℕ, ◌≡◌, refl, true, false, none, some, List, [], ◌∷◌, Option, if◌then◌else◌, ◌==◌, arith,
}
use brilliance_network.Channel.{queues}
use brilliance_network.Fixed.{Fixed, Float_Fixed}
use brilliance_network.Messages.{NetworkMessageType}
use brilliance_network.Tokio.Client.{DebugInfo, ping_color}
use brilliance_network.Tokio.Memory.{IsFifo_queues, byte_codec}
use brilliance_network.Renet.Channels.{server_channel_id, map_type_channel}
use brilliance_network.Renet.Run.{ran, ◌>>=◌, while_some}
use brilliance_network.Renet.Client.{
  RenetClientNetwork, ErrorText, message_decode, new, send_all, send_network_error, report,
  iter_server_messages, iter_errors, send_message, is_connected, disconnect, debug_of,
  show_debug_info, on_server_message, receive_next, receive_all, exchange, step,
}
use brilliance_network.Renet.Client.Delivery.{IsOpen, Exchanged, step_exchange}
use brilliance_network.Renet.Client.Errors.{step_ends}
use brilliance_network.Renet.Memory.{MemoryClient, memory_client, IsInbox_memory}

abbrev panel : DebugInfo String
panel = record {
  empty = "";
  insert_bool = λ d name b. name;
  insert_time = λ d name nanos color. color;
}

abbrev nanos : Fixed → Option ℕ
nanos x = some 30

-- A message and a broken one on channel 0, a message on channel 3.
abbrev arrived : ℕ → List (List ℕ)
arrived k = if k == 0 then (5 ∷ []) ∷ [] ∷ [] else if k == 3 then (6 ∷ []) ∷ [] else []

abbrev crate : MemoryClient
crate = record { inbox = arrived; sent = []; is_disconnected = false }

abbrev network : RenetClientNetwork queues MemoryClient (Option ℕ) ℕ ℕ ℕ String
network = record {
  client = crate;
  transport = none;
  debug_info = "";
  network_decoder_out = (4 ∷ [], true);
  network_errors_out = ([], true);
  network_client_sended = ((2, 9 ∷ []) ∷ [], true);
}

abbrev panel_f64 : String → String → Fixed → String
panel_f64 d name x = d

step_exchange_example :
    (t : RenetClientNetwork queues MemoryClient (Option ℕ) ℕ ℕ ℕ String) × (step queues
        memory_client byte_codec panel panel_f64 nanos 3 1 network
      ≡ ran (t, true))
    × Exchanged queues IsFifo_queues byte_codec memory_client IsInbox_memory none none
        (record crate { sent = (2, 9 ∷ []) ∷ [] })
        network
        t
unfolding send_all IsInbox_memory server_channel_id
step_exchange_example =
    step_exchange queues IsFifo_queues byte_codec memory_client IsInbox_memory panel panel_f64 nanos
      network 3 1 30 none crate none none (record crate { sent = (2, 9 ∷ []) ∷ [] })
      (record { messages = refl; errors = refl }) refl refl refl refl
      (omega arith, (omega arith, (omega arith, (omega arith, tt))))

-- The transport fails.
abbrev failing : RenetClientNetwork queues MemoryClient (Option ℕ) ℕ ℕ ℕ String
failing = record network { transport = some 7 }

step_ends_example :
    (t : RenetClientNetwork queues MemoryClient (Option ℕ) ℕ ℕ ℕ String) × (step queues
        memory_client byte_codec panel panel_f64 nanos 3 1 failing
      ≡ ran (t, false))
    × IsOpen queues IsFifo_queues t
    × (queues.pending t.network_client_sended ≡ (2, 9 ∷ []) ∷ [])
unfolding send_all IsInbox_memory server_channel_id
step_ends_example =
    step_ends queues IsFifo_queues byte_codec memory_client IsInbox_memory panel panel_f64 nanos
      failing 3 1 30 (record { messages = refl; errors = refl }) refl
      (omega arith, (omega arith, (omega arith, (omega arith, tt))))

abbrev shown :
    RenetClientNetwork queues MemoryClient (Option ℕ) ℕ ℕ ℕ String
    → List ℕ × List (ErrorText ℕ ℕ) × String
unfolding iter_server_messages iter_errors
shown n = ((iter_server_messages queues n).0, (iter_errors queues n).0, n.debug_info)

-- Message 4 stood in the queue; 5 and 6 decode, and one error is reported.
stepped :
    (step queues memory_client byte_codec panel panel_f64 nanos 3 1 network >>= λ x.
    ran (shown x.0))
    ≡ ran (4 ∷ 5 ∷ 6 ∷ [], message_decode 0 ∷ [], "&e")
unfolding shown step show_debug_info debug_of exchange send_all report receive_all while_some
    receive_next on_server_message send_network_error iter_server_messages iter_errors
    server_channel_id Float_Fixed ping_color
stepped = refl

abbrev empty_network : RenetClientNetwork queues MemoryClient (Option ℕ) ℕ ℕ ℕ String
unfolding new
empty_network = new queues crate none ""

asked :
    (send_message queues byte_codec NetworkMessageType.world_info 7 empty_network >>= λ n.
    ran n.network_client_sended)
    ≡ ran ((3, 7 ∷ []) ∷ [], true)
unfolding empty_network send_message new server_channel_id map_type_channel
asked = refl

closed :
    (is_connected queues memory_client network ≡ true)
    × (is_connected queues memory_client (disconnect queues memory_client network) ≡ false)
    × (disconnect queues memory_client failing ≡ failing)
unfolding is_connected disconnect
closed = (refl, refl, refl)
