-- ===== src/Tokio/Connection/Delivery.antt =====
-- The reader task of a connection of the server, over all that a client sends.
use mathlib.Core.List.{append-nil}
use brilliance_network.Prelude.{
  collect, collect-snoc, ℕ, suc, ◌+◌, ◌-◌, ◌<◌, ◌≡◌, refl, sym, ◌∙◌, ap, some, false, List, [], ◌∷◌,
  ◌++◌, arith, length, All,
}
use brilliance_network.Channel.{Flume, IsFifo, Codec}
use brilliance_network.Tokio.Frame.{ByteReader, IsReader}
use brilliance_network.Tokio.Frame.RoundTrip.{encode_all, Fits, read_frame_at_end}
use brilliance_network.Tokio.Reader.{Flow, continues, read_loop}
use brilliance_network.Tokio.Reader.Steps.{read_loop-err}
use brilliance_network.Tokio.Reader.Frames.{read_loop_frames}
use brilliance_network.Tokio.Connection.{
  ConnectionReader, on_frame, on_read_error, connection_reader_task,
}
use brilliance_network.Tokio.Connection.Frames.{
  answer_of, sent_by, fault_of, IsOpen, Gained, nothing, Gained-trans, on_frame-Gained,
}

module _ (F : Flume) (laws : IsFifo F) {M E Rd : Type 0} (codec : Codec M E) (r : ByteReader Rd)
    (rl : IsReader r) where
  open rl use {contents}

  Received : ConnectionReader F M E → List (List ℕ) → ConnectionReader F M E → Type 0
  Received c ps t =
      Gained F laws (collect (sent_by codec) ps) (collect answer_of ps)
        (collect (fault_of codec) ps) c t

  Received-snoc :
      (c : ConnectionReader F M E) (ps : List (List ℕ)) (next : Rd) (p : List ℕ)
      (s : ConnectionReader F M E)
      → Received c ps s
      → (t : ConnectionReader F M E) × (on_frame F codec p s ≡ continues t)
        × Received c (ps ++ p ∷ []) t
  unfolding Received
  Received-snoc c ps next p s v =
      let (t, goes, g) = on_frame-Gained F laws codec s v.open_still p in
      (
        t,
        goes,
        rw
            (
              collect-snoc (sent_by codec) ps p,
              collect-snoc answer_of ps p,
              collect-snoc (fault_of codec) ps p,
            )
            (Gained-trans F laws v g),
      )

  -- The reader task of a connection whose queues have receivers, over a stream that holds whole frames
  -- within the limit and then ends, with more fuel than frames: it ends too, all messages of the
  -- stream stand in the queue of the connection in their order, a pong for each ping stands in the
  -- queue of what is to be written, a message that does not decode has made an error and nothing
  -- else, and the connection is disconnected.
  pub connection_reader_task-stream :
      (c : ConnectionReader F M E) (ps : List (List ℕ)) (at : Rd) (fuel : ℕ)
      → IsOpen F laws c
      → All Fits ps
      → contents at ≡ encode_all ps
      → length ps < fuel
      → (t : ConnectionReader F M E) × (connection_reader_task F codec r fuel at c ≡ some t)
        × (F.pending t.cell.client_messages
            ≡ F.pending c.cell.client_messages ++ collect (sent_by codec) ps)
        × (F.pending t.cell.outgoing ≡ F.pending c.cell.outgoing ++ collect answer_of ps)
        × (F.pending t.errors ≡ F.pending c.errors ++ collect (fault_of codec) ps)
        × (t.cell.connected ≡ false)
  unfolding connection_reader_task on_read_error Received
  connection_reader_task-stream c ps at fuel open_queues fits e h =
      let left = fuel - length ps - 1 in
      let enough : fuel ≡ length ps + suc left = omega arith in
      let begin : Received c [] c = unfold collect in nothing F laws c open_queues in
      let handle : Rd → List ℕ → ConnectionReader F M E → Flow (ConnectionReader F M E) =
        λ at. on_frame F codec in
      let fail = on_read_error F codec in
      let (next, t, loops, end, v) =
        read_loop_frames r rl handle fail (Received c)
          (λ ps next p s v. Received-snoc c ps next p s v) [] ps [] at c (suc left) fits
          (e ∙ sym (append-nil (encode_all ps))) begin in
      let (x, failed) = read_frame_at_end r rl next end in
      (
        fail t,
        ap (λ k. read_loop r handle fail k at c) enough
            ∙ loops
            ∙ read_loop-err r handle fail left next t x failed,
        v.messages,
        v.answers,
        v.errors,
        refl,
      )
