-- ===== src/Tokio/Tests.antt =====
-- Examples of the TCP transport, with queues and streams in memory.
use brilliance_network.Prelude.{
  ℕ, zero, suc, ◌+◌, ◌*◌, ◌≡◌, refl, true, false, none, some, List, [], ◌∷◌, ◌++◌, arith, length,
}
use brilliance_network.Channel.{queues, send_ok}
use brilliance_network.Tokio.Memory.{
  IsFifo_queues, sink, IsWriter_sink, source, IsReader_source, byte_codec,
}
use brilliance_network.Tokio.Frame.{ok, err, invalid_data, write_frame, read_frame}
use brilliance_network.Tokio.Frame.RoundTrip.{
  encode, encode_all, Fits, write_frame-written, read_frame-encode, read_frame_too_long,
  read_frame-ok,
}
use brilliance_network.Tokio.Reader.{Flow, continues, read_loop}
use brilliance_network.Tokio.Writer.{Writing, write_one, flush_all, write_queued, write_received}
use brilliance_network.Tokio.Writer.Batch.{Wrote, Flushed, write_received_lem}
use brilliance_network.Tokio.Client
use brilliance_network.Tokio.Client.{TokioClient, DebugInfo, client_reader_task}
use brilliance_network.Tokio.Client.Frames.{messages_of, errors_of}
use brilliance_network.Tokio.Client.Delivery.{client_reader_task-stream, client_reader_task-ends}

framed : write_frame sink [] (0 ∷ 7 ∷ []) ≡ ok (2 ∷ 0 ∷ 0 ∷ 0 ∷ 0 ∷ 7 ∷ [])
unfolding write_frame
framed = refl

unframed : read_frame source (2 ∷ 0 ∷ 0 ∷ 0 ∷ 0 ∷ 7 ∷ 5 ∷ []) ≡ ok (0 ∷ 7 ∷ [], 5 ∷ [])
unfolding read_frame
unframed = refl

-- A prefix of 16 MB and one byte, whatever follows.
refused : read_frame source (1 ∷ 0 ∷ 0 ∷ 1 ∷ []) ≡ err (invalid_data (16 * 1024 * 1024 + 1))
unfolding read_frame
refused = refl

write_frame-written_example : 9 ∷ 2 ∷ 0 ∷ 0 ∷ 0 ∷ 0 ∷ 7 ∷ [] ≡ (9 ∷ []) ++ encode (0 ∷ 7 ∷ [])
unfolding write_frame IsWriter_sink
write_frame-written_example =
    write_frame-written sink IsWriter_sink (9 ∷ []) (9 ∷ 2 ∷ 0 ∷ 0 ∷ 0 ∷ 0 ∷ 7 ∷ []) (0 ∷ 7 ∷ [])
      refl

read_frame-encode_example :
    (t : List ℕ) × (read_frame source (2 ∷ 0 ∷ 0 ∷ 0 ∷ 0 ∷ 7 ∷ 5 ∷ []) ≡ ok (0 ∷ 7 ∷ [], t))
    × (IsReader_source.contents t ≡ 5 ∷ [])
unfolding IsReader_source encode
read_frame-encode_example =
    read_frame-encode source IsReader_source (2 ∷ 0 ∷ 0 ∷ 0 ∷ 0 ∷ 7 ∷ 5 ∷ []) (0 ∷ 7 ∷ []) (5 ∷ [])
      (omega arith) refl

zeros : ℕ → List ℕ
zeros zero = []
zeros (suc n) = 0 ∷ zeros n

length-zeros : (n : ℕ) → length (zeros n) ≡ n
unfolding zeros
length-zeros zero = refl
length-zeros (suc n) = omega (arith, length-zeros n)

abbrev too_long : ℕ
too_long = 16 * 1024 * 1024 + 1

read_frame_too_long_example :
    read_frame source (encode (zeros too_long) ++ []) ≡ err (invalid_data (length (zeros too_long)))
unfolding IsReader_source
read_frame_too_long_example =
    read_frame_too_long source IsReader_source (encode (zeros too_long) ++ []) (zeros too_long) []
      (omega (arith, length-zeros too_long)) (omega (arith, length-zeros too_long)) refl

read_frame-ok_example :
    Fits (0 ∷ 7 ∷ []) × (2 ∷ 0 ∷ 0 ∷ 0 ∷ 0 ∷ 7 ∷ 5 ∷ [] ≡ encode (0 ∷ 7 ∷ []) ++ 5 ∷ [])
unfolding IsReader_source read_frame
read_frame-ok_example =
    read_frame-ok source IsReader_source (2 ∷ 0 ∷ 0 ∷ 0 ∷ 0 ∷ 7 ∷ 5 ∷ []) (5 ∷ []) (0 ∷ 7 ∷ []) refl

abbrev writing : Writing queues (List ℕ)
writing = record { sink = []; outgoing = ((0 ∷ 8 ∷ []) ∷ [], true); connected = true }

written_batch :
    write_received queues sink 2 (some (0 ∷ 7 ∷ [])) writing
    ≡ some (
        continues (record writing {
          sink = 2 ∷ 0 ∷ 0 ∷ 0 ∷ 0 ∷ 7 ∷ 2 ∷ 0 ∷ 0 ∷ 0 ∷ 0 ∷ 8 ∷ [];
          outgoing = ([], true);
        }))
unfolding write_received write_queued write_one flush_all write_frame
written_batch = refl

write_received_lem_example :
    (flow : Flow (Writing queues (List ℕ))) × (write_received queues sink 2
        (some (0 ∷ 7 ∷ []))
        writing
      ≡ some flow)
    × Wrote queues IsFifo_queues sink IsWriter_sink writing ((0 ∷ 7 ∷ []) ∷ (0 ∷ 8 ∷ []) ∷ []) flow
    × Flushed queues IsFifo_queues sink IsWriter_sink flow
write_received_lem_example =
    write_received_lem queues IsFifo_queues sink IsWriter_sink 2 (0 ∷ 7 ∷ []) writing (omega arith)

abbrev client : TokioClient queues ℕ ℕ ℕ
client = record {
  connected = true;
  debug_info = 0;
  rtt_nanos = 0;
  last_ping_sent = some 40;
  incoming_messages = ([], true);
  incoming_errors = ([], true);
  outgoing_messages = ([], true);
}

-- A message, a pong, an empty frame and a message that does not decode.
abbrev frames : List (List ℕ)
frames = (0 ∷ 7 ∷ []) ∷ (2 ∷ []) ∷ [] ∷ (0 ∷ []) ∷ []

client_reads :
    client_reader_task queues byte_codec source (λ s. 100) 9 (encode_all frames) client
    ≡ some (record client {
      connected = false;
      rtt_nanos = 60;
      last_ping_sent = none;
      incoming_messages = (7 ∷ [], true);
      incoming_errors = (Client.message_decode 0 ∷ [], true);
    })
unfolding client_reader_task Client.on_read_error Client.on_frame Client.on_message Client.on_pong
    read_loop read_frame encode_all encode send_ok
client_reads = refl

client_reader_task-stream_example :
    (t : TokioClient queues ℕ ℕ ℕ) × (client_reader_task queues byte_codec source
        (λ s. 100)
        9
        (encode_all frames)
        client
      ≡ some t)
    × (t.incoming_messages.0 ≡ [] ++ messages_of byte_codec frames)
    × (t.incoming_errors.0 ≡ [] ++ errors_of byte_codec frames)
    × (t.connected ≡ false)
unfolding IsReader_source
client_reader_task-stream_example =
    client_reader_task-stream queues IsFifo_queues byte_codec source IsReader_source (λ s. 100)
      client frames (encode_all frames) 9 refl refl
      (omega arith, (omega arith, (omega arith, (omega arith, tt)))) refl (omega arith)

client_reader_task-ends_example :
    (t : TokioClient queues ℕ ℕ ℕ) × (client_reader_task queues byte_codec source
        (λ s. 100)
        9
        (1 ∷ 2 ∷ [])
        client
      ≡ some t)
    × (t.connected ≡ false)
unfolding IsReader_source
client_reader_task-ends_example =
    client_reader_task-ends queues IsFifo_queues byte_codec source IsReader_source (λ s. 100) client
      (1 ∷ 2 ∷ []) 9 refl refl (omega arith)
