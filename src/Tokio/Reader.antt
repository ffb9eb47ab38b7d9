-- ===== src/Tokio/Reader.antt =====
-- The loop that `client_reader_task` (src/tokio/client.rs) and `connection_reader_task`
-- (src/tokio/server.rs) share: read a frame, handle it, and stop at the first error of the stream.
pub mod Steps
pub mod Termination
pub mod Frames
use brilliance_network.Prelude.{ℕ, zero, suc, Option, none, some, List}
use brilliance_network.Tokio.Frame.{ok, err, ByteReader, read_frame}

-- Whether a task goes round its loop again, and with which state.
pub data Flow (S : Type 0) : Type 0 where
  continues : S → Flow S
  stops : S → Flow S

abbrev pub state : {S : Type 0} → Flow S → S
state (continues s) = s
state (stops s) = s

module _ {Rd S : Type 0} (r : ByteReader Rd) (handle : Rd → List ℕ → S → Flow S)
    (fail : S → S) where
  -- `handle` is told where the reader stands after the frame, which dates the frame. `none` means
  -- that the fuel ran out.
  unfoldable pub read_loop : ℕ → Rd → S → Option S
  read_loop zero at s = none
  read_loop (suc fuel) at s = elim (read_frame r at) [
    | err e ↦ some (fail s)
    | ok (payload, next) ↦ elim (handle next payload s) [
      | stops t ↦ some t
      | continues t ↦ read_loop fuel next t
    ]
  ]
