-- ===== src/Tokio/ClientTests.antt =====
-- Examples of the interface of the TCP client, and of its writer.
use Prim.Native.String.{String}
use brilliance_network.Prelude.{
  ◌-◌, ◌++◌, arith, ℕ, ◌≡◌, refl, true, false, none, some, List, [], ◌∷◌,
}
use brilliance_network.Channel.{queues, send_ok}
use brilliance_network.Fixed.{thousandths, Float_Fixed}
use brilliance_network.Tokio.Memory.{IsFifo_queues, IsWriter_sink, sink, byte_codec}
use brilliance_network.Tokio.Frame.{write_frame}
use brilliance_network.Tokio.Frame.RoundTrip.{encode}
use brilliance_network.Tokio.Client.Ping.{ping_measured}
use brilliance_network.Tokio.Client.Interleaving.{Running}
use brilliance_network.Tokio.Client.Progress.{Progress}
use brilliance_network.Tokio.Reader.{continues}
use brilliance_network.Tokio.Writer.{write_one, flush_all, write_queued, write_received}
use brilliance_network.Tokio.Client.{
  on_frame, TokioClient, DebugInfo, ClientWriting, message_decode, new, is_connected, disconnect,
  iter_server_messages, iter_errors, send_message, ping_color, step, with_writing, send_ping,
  client_writer_round, received, tick,
}

abbrev client : TokioClient queues ℕ ℕ String
client = new queues ""

abbrev panel : DebugInfo String
panel = record {
  empty = "";
  insert_bool = λ d name b. name;
  insert_time = λ d name nanos color. color;
}

-- 30 ms is yellow; thousandths of a second make it 30 milliseconds.
stepped :
    step queues panel (λ n. thousandths n) (record client { rtt_nanos = 30 })
    ≡ (record client { rtt_nanos = 30; debug_info = "&e" }, true)
unfolding step ping_color new Float_Fixed
stepped = refl

stopped :
    step queues panel (λ n. thousandths n) (disconnect queues client)
    ≡ (disconnect queues client, false)
unfolding step disconnect new Float_Fixed
stopped = refl

sent : (send_message queues byte_codec 7 client).outgoing_messages ≡ ((0 ∷ 7 ∷ []) ∷ [], true)
unfolding send_message new send_ok
sent = refl

unsent : send_message queues byte_codec 7 (disconnect queues client) ≡ disconnect queues client
unfolding send_message disconnect new
unsent = refl

read :
    let c : TokioClient queues ℕ ℕ String = record client {
      incoming_messages = (5 ∷ [], true);
      incoming_errors = (message_decode 3 ∷ [], true);
    } in
    ((iter_server_messages queues c).0 ≡ 5 ∷ [])
    × ((iter_errors queues c).0 ≡ message_decode 3 ∷ [])
    × (is_connected queues c ≡ true)
unfolding iter_server_messages iter_errors is_connected new
read = (refl, refl, refl)

abbrev writing : ClientWriting queues (List ℕ)
writing = record {
  writing = record { sink = []; outgoing = ([], true); connected = true };
  last_ping_sent = none;
}

pinged :
    client_writer_round queues sink 1 (tick 33) writing
    ≡ some (
        continues (record {
          writing = record {
            sink = 1 ∷ 0 ∷ 0 ∷ 0 ∷ 1 ∷ [];
            outgoing = ([], true);
            connected = true;
          };
          last_ping_sent = some 33;
        }))
unfolding client_writer_round with_writing send_ping write_one flush_all write_frame
pinged = refl

wrote :
    client_writer_round queues sink 1 (received (some (0 ∷ 7 ∷ []))) writing
    ≡ some (
        continues (record writing {
          writing = record {
            sink = 2 ∷ 0 ∷ 0 ∷ 0 ∷ 0 ∷ 7 ∷ [];
            outgoing = ([], true);
            connected = true;
          };
        }))
unfolding client_writer_round with_writing write_received write_queued write_one flush_all
    write_frame
wrote = refl

ping_measured_example :
    let d : TokioClient queues ℕ ℕ String = record client { last_ping_sent = some 33 } in
    let t = record d { last_ping_sent = none; rtt_nanos = 90 - 33 } in
    (1 ∷ 0 ∷ 0 ∷ 0 ∷ 1 ∷ [] ≡ [] ++ encode (1 ∷ []))
    × (on_frame queues byte_codec 90 (2 ∷ []) d ≡ continues t)
    × (on_frame queues byte_codec 95 (2 ∷ []) t ≡ continues t)
unfolding client_writer_round with_writing send_ping write_one flush_all write_frame IsWriter_sink
ping_measured_example =
    ping_measured queues IsFifo_queues sink IsWriter_sink byte_codec 1 33 90 95 writing
      (record {
        writing = record { sink = 1 ∷ 0 ∷ 0 ∷ 0 ∷ 1 ∷ []; outgoing = ([], true); connected = true };
        last_ping_sent = some 33;
      })
      client [] refl (omega arith)

abbrev start : Running queues (List ℕ) ℕ ℕ String
unfolding new
start = record { client = new queues ""; sink = [] }

-- A message is sent, the timer ticks, and the writer task takes the message.
abbrev finish : Running queues (List ℕ) ℕ ℕ String
unfolding new
finish = record {
  client = record (new queues "") { last_ping_sent = some 5; outgoing_messages = ([], true) };
  sink = 1 ∷ 0 ∷ 0 ∷ 0 ∷ 1 ∷ 2 ∷ 0 ∷ 0 ∷ 0 ∷ 0 ∷ 7 ∷ [];
}

-- The same message, still in the queue.
abbrev queued : Running queues (List ℕ) ℕ ℕ String
unfolding new
queued = record {
  client = record (new queues "") { outgoing_messages = ((0 ∷ 7 ∷ []) ∷ [], true) };
  sink = [];
}
