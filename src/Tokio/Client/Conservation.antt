-- ===== src/Tokio/Client/Conservation.antt =====
-- However the tasks of a client and the calls of its interface alternate, no message is lost, doubled
-- or overtaken on its way from `send_message` to the stream.
use brilliance_network.Prelude.{
  ℕ, ◌≡◌, refl, ◌∙◌, ap, true, Option, none, some, List, ◌++◌, collect,
}
use brilliance_network.Channel.{Flume, IsFifo, Codec}
use brilliance_network.Tokio.Frame.{ByteWriter, IsWriter}
use brilliance_network.Tokio.Frame.RoundTrip.{encode_all}
use brilliance_network.Tokio.Reader.{Flow}
use brilliance_network.Tokio.Writer.{Writing, write_received}
use brilliance_network.Tokio.Client.{ClientWriting, received, with_writing, client_writer_round}
use brilliance_network.Tokio.Client.Interleaving.{Running, message_frame}

module _ (F : Flume) (laws : IsFifo F) {W : Type 0} (w : ByteWriter W) (wl : IsWriter w) where
  open wl use {written, on_stream}

  -- What such a round has put on the stream, and what it has left in the queue.
  pub record Round (st t : ClientWriting F W) (ps left : List (List ℕ)) : Type 0 where
    pub bytes : on_stream t.writing.sink ≡ written st.writing.sink ++ encode_all ps
    pub flushed : on_stream t.writing.sink ≡ written t.writing.sink
    pub queue : F.pending t.writing.outgoing ≡ left

  -- What the writer does with a received message is the round.
  pub received_runs :
      (fuel : ℕ) (p : List ℕ) (st : ClientWriting F W) (wrote : Flow (Writing F W))
      → st.writing.connected ≡ true
      → write_received F w fuel (some p) st.writing ≡ some wrote
      → client_writer_round F w fuel (received (some p)) st ≡ some (with_writing F w st wrote)
  unfolding client_writer_round
  received_runs fuel p st wrote up e =
      let go : Option (Flow (Writing F W)) → Option (Flow (ClientWriting F W)) =
        λ o. elim o [ none ↦ none | some x ↦ some (with_writing F w st x) ] in
      let runs : client_writer_round F w fuel (received (some p)) st
          ≡ go (write_received F w fuel (some p) st.writing) =
        rw (up, client_writer_round) refl in
      runs ∙ ap go e

module _ (F : Flume) (laws : IsFifo F) {W M E D M' : Type 0} (w : ByteWriter W) (wl : IsWriter w)
    (codec : Codec M E) (codec' : Codec M' E) where
  open wl use {written, on_stream}

  module _ (start : Running F W M E D) where
    -- These frames have gone over the stream since the start, and nothing is left in the buffer. Their messages and those of the queue are the
    -- messages that were sent, in that order.
    pub record Conserved (sent : List (List ℕ)) (s : Running F W M E D) : Type 0 where
      pub frames : List (List ℕ)
      pub bytes : on_stream s.sink ≡ on_stream start.sink ++ encode_all frames
      pub flushed : on_stream s.sink ≡ written s.sink
      pub order : collect message_frame (frames ++ F.pending s.client.outgoing_messages) ≡ sent
