-- ===== src/Tokio/Connection.antt =====
-- src/tokio/server.rs: one connection of the TCP server, and the tasks that read and write its stream.
-- Clones of a connection share their `Arc`s: the shared parts are a `Cell`. Times are milliseconds of
-- the server's clock.
pub mod Frames
pub mod Delivery
use brilliance_network.Prelude.{
  ℕ, ◌+◌, Bool, false, not, Option, none, some, List, [], ◌∷◌, leb, ◌==◌, if◌then◌else◌,
}
use brilliance_network.Channel.{Flume, Codec, ok, err, send_ok}
use brilliance_network.Tokio.Frame.{ByteReader, ByteWriter, frame_message, frame_ping, frame_pong}
use brilliance_network.Tokio.Reader.{Flow, continues, stops, read_loop}
use brilliance_network.Tokio.Writer.{Writing, write_received}

pub record Cell (F : Flume) (M : Type 0) : Type 0 where
  pub connected : Bool
  pub disconnect_at : Option ℕ
  pub client_messages : F.Channel M
  pub outgoing : F.Channel (List ℕ)

-- `Client message decode error: {}`.
pub data ErrorText (E : Type 0) : Type 0 where
  message_decode : E → ErrorText E

-- The methods of a connection, on its cell.
module _ (F : Flume) {M : Type 0} where
  unfoldable pub is_to_disconnect : ℕ → Cell F M → Bool
  is_to_disconnect now c = elim c.disconnect_at [ some at ↦ leb at now | none ↦ false ]

  -- `IServerNetwork::is_connected`.
  unfoldable pub is_connected : ℕ → Cell F M → Bool
  unfolding is_to_disconnect
  is_connected now c = if is_to_disconnect now c then false else c.connected

  unfoldable pub drain_client_messages : Cell F M → List M × Cell F M
  drain_client_messages c =
      let (messages, left) = F.drain c.client_messages in
      (messages, record c { client_messages = left })

  -- `M'` are the messages to the client.
  unfoldable pub send_message : {M' E : Type 0} → Codec M' E → M' → Cell F M → Cell F M
  send_message codec m c =
      if not c.connected
      then c
      else record c { outgoing = send_ok F (frame_message ∷ codec.serialize m) c.outgoing }

  -- `IServerConnection::disconnect`: in 200 ms.
  unfoldable pub disconnect_later : ℕ → Cell F M → Cell F M
  disconnect_later now c = elim c.disconnect_at [
    | none ↦ record c { disconnect_at = some (now + 200) }
    | some at ↦ c
  ]

-- What `connection_reader_task` holds.
pub record ConnectionReader (F : Flume) (M E : Type 0) : Type 0 where
  pub cell : Cell F M
  pub errors : F.Channel (ErrorText E)

module _ (F : Flume) {M E : Type 0} (codec : Codec M E) where
  unfoldable pub on_message : List ℕ → ConnectionReader F M E → Flow (ConnectionReader F M E)
  on_message body c = elim (codec.deserialize body) [
    | ok m ↦ elim (F.send m c.cell.client_messages) [
      | none ↦ stops c
      | some messages ↦
          continues (record c { cell = record (c.cell) { client_messages = messages } })
    ]
    | err e ↦ continues (record c { errors = send_ok F (message_decode e) c.errors })
  ]

  unfoldable pub on_ping : ConnectionReader F M E → ConnectionReader F M E
  on_ping c = record c {
    cell = record (c.cell) { outgoing = send_ok F (frame_pong ∷ []) c.cell.outgoing };
  }

  -- One frame of `connection_reader_task`.
  unfoldable pub on_frame : List ℕ → ConnectionReader F M E → Flow (ConnectionReader F M E)
  on_frame [] c = continues c
  on_frame (kind ∷ body) c =
      if kind == frame_message
      then on_message body c
      else if kind == frame_ping
      then continues (on_ping c)
      else continues c

  unfoldable pub on_read_error : ConnectionReader F M E → ConnectionReader F M E
  on_read_error c = record c { cell = record (c.cell) { connected = false } }

  unfoldable pub connection_reader_task :
      {Rd : Type 0}
      → ByteReader Rd
      → ℕ
      → Rd
      → ConnectionReader F M E
      → Option (ConnectionReader F M E)
  connection_reader_task r = read_loop r (λ at. on_frame) on_read_error

-- What the `select!` of `connection_writer_task` waits for.
pub data Wakeup : Type 0 where
  received : Option (List ℕ) → Wakeup
  slept : Wakeup

module _ (F : Flume) {W : Type 0} (w : ByteWriter W) where
  -- One round of `connection_writer_task`.
  unfoldable pub connection_writer_round : ℕ → Wakeup → Writing F W → Option (Flow (Writing F W))
  connection_writer_round fuel (received message) s =
      if not s.connected then some (stops s) else write_received F w fuel message s
  connection_writer_round fuel slept s =
      if not s.connected then some (stops s) else some (continues s)
