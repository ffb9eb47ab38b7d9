-- ===== src/Tokio/Client.antt =====
-- src/tokio/client.rs: the TCP client. Its tasks share the fields of this record through `Arc`s;
-- `last_ping_sent` is shared by the two tasks only. Times are nanoseconds of the local clock.
pub mod Frames
pub mod Delivery
pub mod Ping
pub mod Interleaving
pub mod Conservation
pub mod Progress
use Prim.Native.String.{String}
use brilliance_network.Prelude.{
  ℕ, ◌-◌, ◌%◌, ◌^◌, Bool, true, false, not, Option, none, some, List, [], ◌∷◌, ◌==◌, if◌then◌else◌,
}
use brilliance_network.Float.{Float}
use brilliance_network.Channel.{Flume, Codec, ok, err, send_ok}
use brilliance_network.Tokio.Frame.{ByteReader, ByteWriter, frame_message, frame_ping, frame_pong}
use brilliance_network.Tokio.Reader.{Flow, continues, stops, read_loop}
use brilliance_network.Tokio.Writer.{Writing, write_one, flush_all, write_received}

-- `DebugInfo` of the crate `common`.
pub record DebugInfo (D : Type 0) : Type 0 where
  pub empty : D
  pub insert_bool : D → String → Bool → D
  pub insert_time : D → String → ℕ → String → D

-- `Message decode error: {}`.
pub data ErrorText (E : Type 0) : Type 0 where
  message_decode : E → ErrorText E

pub record TokioClient (F : Flume) (M E D : Type 0) : Type 0 where
  pub connected : Bool
  pub debug_info : D
  pub rtt_nanos : ℕ
  pub last_ping_sent : Option ℕ
  pub incoming_messages : F.Channel M
  pub incoming_errors : F.Channel (ErrorText E)
  pub outgoing_messages : F.Channel (List ℕ)

module _ (F : Flume) {M E D : Type 0} where
  -- The state that `new` makes once the stream is there.
  unfoldable pub new : D → TokioClient F M E D
  new debug_info = record {
    connected = true;
    debug_info = debug_info;
    rtt_nanos = 0;
    last_ping_sent = none;
    incoming_messages = F.unbounded;
    incoming_errors = F.unbounded;
    outgoing_messages = F.unbounded;
  }

  -- `Err(_)` from `read_frame`.
  unfoldable pub on_read_error : TokioClient F M E D → TokioClient F M E D
  on_read_error c = record c { connected = false }

  module _ (codec : Codec M E) where
    unfoldable pub on_message : List ℕ → TokioClient F M E D → Flow (TokioClient F M E D)
    on_message body c = elim (codec.deserialize body) [
      | ok m ↦ elim (F.send m c.incoming_messages) [
        | none ↦ stops c
        | some messages ↦ continues (record c { incoming_messages = messages })
      ]
      | err e ↦
          continues (record c { incoming_errors = send_ok F (message_decode e) c.incoming_errors })
    ]

    unfoldable pub on_pong : ℕ → TokioClient F M E D → TokioClient F M E D
    on_pong now c = elim c.last_ping_sent [
      | none ↦ c
      | some sent_at ↦ record c { last_ping_sent = none; rtt_nanos = (now - sent_at) % 2 ^ 64 }
    ]

    -- One frame of `client_reader_task`, at the time `now`.
    unfoldable pub on_frame : ℕ → List ℕ → TokioClient F M E D → Flow (TokioClient F M E D)
    on_frame now [] c = continues c
    on_frame now (kind ∷ body) c =
        if kind == frame_message
        then on_message body c
        else if kind == frame_pong
        then continues (on_pong now c)
        else continues c

    -- `clock` tells the time at which the reader has come to a place in the stream.
    unfoldable pub client_reader_task :
        {Rd : Type 0}
        → ByteReader Rd
        → (clock : Rd → ℕ) → ℕ
        → Rd
        → TokioClient F M E D
        → Option (TokioClient F M E D)
    client_reader_task r clock = read_loop r (λ at. on_frame (clock at)) on_read_error

  unfoldable pub is_connected : TokioClient F M E D → Bool
  is_connected c = c.connected

  unfoldable pub disconnect : TokioClient F M E D → TokioClient F M E D
  disconnect c = record c { connected = false }

  unfoldable pub iter_server_messages : TokioClient F M E D → List M × TokioClient F M E D
  iter_server_messages c =
      let (messages, left) = F.drain c.incoming_messages in
      (messages, record c { incoming_messages = left })

  unfoldable pub iter_errors : TokioClient F M E D → List (ErrorText E) × TokioClient F M E D
  iter_errors c =
      let (errors, left) = F.drain c.incoming_errors in
      (errors, record c { incoming_errors = left })

  -- `M'` are the messages to the server.
  unfoldable pub send_message :
      {M' : Type 0} → Codec M' E → M' → TokioClient F M E D → TokioClient F M E D
  send_message codec m c = if not c.connected then c else record c {
    outgoing_messages = send_ok F (frame_message ∷ codec.serialize m) c.outgoing_messages;
  }

-- The colour of the ping for the debug panel, by the round trip in milliseconds.
unfoldable pub ping_color : {R : Type 0} ⦃f : Float R⦄ → R → String
ping_color ⦃f⦄ ms =
    if f.lt ms (f.literal 20 0)
    then "&a"
    else if f.lt ms (f.literal 50 0)
    then "&e"
    else if f.lt ms (f.literal 80 0)
    then "&o"
    else if f.lt ms (f.literal 120 0)
    then "&s"
    else if f.lt ms (f.literal 200 0)
    then "&c"
    else "&4"

module _ (F : Flume) {M E D R : Type 0} ⦃f : Float R⦄ (info : DebugInfo D)
    (as_secs_f64 : ℕ → R) where
  unfoldable pub step : TokioClient F M E D → TokioClient F M E D × Bool
  unfolding ping_color
  step c =
      if not c.connected
      then (c, false)
      else (let color = ping_color (f.mul (as_secs_f64 c.rtt_nanos) (f.literal 1000 0)) in
          let shown = info.insert_bool info.empty "is_connected" true in
          (record c { debug_info = info.insert_time shown "ping" c.rtt_nanos color }, true))

-- What `client_writer_task` holds.
pub record ClientWriting (F : Flume) (W : Type 0) : Type 0 where
  pub writing : Writing F W
  pub last_ping_sent : Option ℕ

-- What its `select!` waits for: a message of the queue, or a tick of the ping timer.
pub data Wakeup : Type 0 where
  received : Option (List ℕ) → Wakeup
  tick : ℕ → Wakeup

module _ (F : Flume) {W : Type 0} (w : ByteWriter W) where
  unfoldable pub with_writing : ClientWriting F W → Flow (Writing F W) → Flow (ClientWriting F W)
  with_writing s (continues x) = continues (record s { writing = x })
  with_writing s (stops x) = stops (record s { writing = x })

  -- `write_frame` and then `flush`.
  unfoldable pub send_ping : Writing F W → Flow (Writing F W)
  send_ping x = elim (write_one F w (frame_ping ∷ []) x) [
    | stops y ↦ stops y
    | continues y ↦ flush_all F w y
  ]

  -- One round of `client_writer_task`.
  unfoldable pub client_writer_round :
      ℕ → Wakeup → ClientWriting F W → Option (Flow (ClientWriting F W))
  unfolding with_writing
  client_writer_round fuel (received message) s =
      if not s.writing.connected
      then some (stops s)
      else elim (write_received F w fuel message s.writing) [
        | none ↦ none
        | some flow ↦ some (with_writing s flow)
      ]
  client_writer_round fuel (tick now) s =
      if not s.writing.connected
      then some (stops s)
      else (let pinged = record s { last_ping_sent = some now } in
          some (with_writing pinged (send_ping s.writing)))
