-- ===== src/Tokio/Writer.antt =====
-- What `client_writer_task` (src/tokio/client.rs) and `connection_writer_task`
-- (src/tokio/server.rs) do with a message from their queue: write it, write what else is queued, and
-- flush once.
pub mod Batch
use brilliance_network.Prelude.{ℕ, zero, suc, Bool, false, Option, none, some, List}
use brilliance_network.Channel.{Flume}
use brilliance_network.Tokio.Frame.{ok, err, ByteWriter, write_frame}
use brilliance_network.Tokio.Reader.{Flow, continues, stops}

pub record Writing (F : Flume) (W : Type 0) : Type 0 where
  pub sink : W
  pub outgoing : F.Channel (List ℕ)
  pub connected : Bool

module _ (F : Flume) {W : Type 0} (w : ByteWriter W) where
  unfoldable pub disconnected : Writing F W → Writing F W
  disconnected s = record s { connected = false }

  -- Writes one frame; a failure disconnects and ends the task.
  unfoldable pub write_one : List ℕ → Writing F W → Flow (Writing F W)
  unfolding disconnected
  write_one payload s = elim (write_frame w s.sink payload) [
    | err e ↦ stops (disconnected s)
    | ok sink ↦ continues (record s { sink = sink })
  ]

  unfoldable pub flush_all : Writing F W → Flow (Writing F W)
  unfolding disconnected
  flush_all s = elim (w.flush s.sink) [
    | err e ↦ stops (disconnected s)
    | ok sink ↦ continues (record s { sink = sink })
  ]

  -- `while let Ok(data) = rx.try_recv()`; `none` means that the fuel ran out.
  unfoldable pub write_queued : ℕ → Writing F W → Option (Flow (Writing F W))
  write_queued zero s = none
  write_queued (suc fuel) s = elim (F.try_recv s.outgoing) [
    | none ↦ some (continues s)
    | some (payload, outgoing) ↦ elim (write_one payload (record s { outgoing = outgoing })) [
      | stops t ↦ some (stops t)
      | continues t ↦ write_queued fuel t
    ]
  ]

  -- The arm of `select!` for `recv_async`: `none` is a queue with no sender left.
  unfoldable pub write_received : ℕ → Option (List ℕ) → Writing F W → Option (Flow (Writing F W))
  write_received fuel none s = some (stops s)
  write_received fuel (some payload) s = elim (write_one payload s) [
    | stops t ↦ some (stops t)
    | continues t ↦ elim (write_queued fuel t) [
      | none ↦ none
      | some (stops u) ↦ some (stops u)
      | some (continues u) ↦ some (flush_all u)
    ]
  ]
