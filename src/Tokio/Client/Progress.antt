-- ===== src/Tokio/Client/Progress.antt =====
-- What a client's writer task gets done: after one more of its rounds, every message that
-- `send_message` has taken is on the stream, or the client has disconnected.
use brilliance_network.Prelude.{ℕ, ◌≡◌, ◌⊎◌, false, some, List, [], ◌++◌, collect}
use brilliance_network.Channel.{Flume, IsFifo, Codec}
use brilliance_network.Tokio.Frame.{ByteWriter, IsWriter}
use brilliance_network.Tokio.Frame.RoundTrip.{encode_all}
use brilliance_network.Tokio.Reader.{Flow, state}
use brilliance_network.Tokio.Client.{ClientWriting, received, client_writer_round}
use brilliance_network.Tokio.Client.Interleaving.{Running, message_frame, writing_of, after}

module _ (F : Flume) (laws : IsFifo F) {W M E D M' : Type 0} (w : ByteWriter W) (wl : IsWriter w)
    (codec : Codec M E) (codec' : Codec M' E) (start : Running F W M E D) where
  open wl use {written, on_stream}

  -- The frames that have gone out since the start carry exactly the messages that were sent.
  pub record Delivered (sent : List (List ℕ)) (s : Running F W M E D) : Type 0 where
    pub frames : List (List ℕ)
    pub bytes : on_stream s.sink ≡ on_stream start.sink ++ encode_all frames
    pub order : collect message_frame frames ≡ sent
    pub queue : F.pending s.client.outgoing_messages ≡ []

  -- One turn of the writer task: it waits where nothing is queued, else it takes the oldest message
  -- and does a round.
  pub data Turn (s : Running F W M E D) : Running F W M E D → Type 0 where
    waits : F.pending s.client.outgoing_messages ≡ [] → Turn s s
    works :
        (fuel : ℕ) (p : List ℕ) (left : F.Channel (List ℕ)) (flow : Flow (ClientWriting F W))
        → F.try_recv s.client.outgoing_messages ≡ some (p, left)
        → client_writer_round F w fuel (received (some p)) (writing_of F s left) ≡ some flow
        → Turn s (after F s (state flow))

  -- A turn comes to an end, and leaves the client disconnected or with everything delivered.
  pub Progress : List (List ℕ) → Running F W M E D → Type 0
  Progress sent s =
      (t : Running F W M E D) × Turn s t × ((t.client.connected ≡ false) ⊎ Delivered sent t)
