-- ===== src/Tokio/Client/Interleaving.antt =====
-- A client's two tasks and the calls of its interface, in any order: what goes over the stream.
use mathlib.Core.List.{append_assoc}
use brilliance_network.Prelude.{
  ℕ, ◌<◌, ◌≡◌, refl, sym, ◌∙◌, ap, inl, inr, ◌⊎◌, true, false, some, List, [], ◌∷◌, ◌++◌, ◌==◌,
  if◌then◌else◌, length,
}
use brilliance_network.Channel.{Flume, IsFifo, Codec}
use brilliance_network.Tokio.Frame.{ByteWriter, IsWriter, frame_message, frame_ping}
use brilliance_network.Tokio.Frame.RoundTrip.{encode, encode_all}
use brilliance_network.Tokio.Reader.{Flow, continues, stops, state}
use brilliance_network.Tokio.Writer.{Writing, disconnected}
use brilliance_network.Tokio.Writer.Batch.{write_one_cases, flush_all_cases}
use brilliance_network.Tokio.Client.{
  TokioClient, ClientWriting, received, tick, on_frame, on_read_error, send_ping,
  client_writer_round, send_message, disconnect, iter_server_messages, iter_errors,
}

-- What a client and the sink of its writer task hold.
pub record Running (F : Flume) (W M E D : Type 0) : Type 0 where
  pub client : TokioClient F M E D
  pub sink : W

-- A frame that carries a message; a ping carries none.
abbrev pub message_frame : List ℕ → List (List ℕ)
message_frame [] = []
message_frame (kind ∷ body) = if kind == frame_message then (kind ∷ body) ∷ [] else []

module _ (F : Flume) {W M E D : Type 0} where
  -- The writer task's view of the state, when the queue is `left`.
  abbrev pub writing_of : Running F W M E D → F.Channel (List ℕ) → ClientWriting F W
  writing_of s left = record {
    writing = record { sink = s.sink; outgoing = left; connected = s.client.connected };
    last_ping_sent = s.client.last_ping_sent;
  }

  -- The state after a round of the writer task.
  abbrev pub after : Running F W M E D → ClientWriting F W → Running F W M E D
  after s x = record {
    sink = x.writing.sink;
    client = record (s.client) {
      outgoing_messages = x.writing.outgoing;
      connected = x.writing.connected;
      last_ping_sent = x.last_ping_sent;
    };
  }

  module _ {M' : Type 0} (w : ByteWriter W) (codec : Codec M E) (codec' : Codec M' E)
      (start : Running F W M E D) where
    -- `Runs sent s`: the tasks and the calls have led from the start to `s`, and `send_message` has
    -- taken the messages of the frames `sent`. A round of the writer task that receives has taken the
    -- oldest message of the queue.
    pub data Runs : List (List ℕ) → Running F W M E D → Type 0 where
      begins : Runs [] start
      sends :
          {sent : List (List ℕ)} {s : Running F W M E D} (m : M')
          → Runs sent s
          → s.client.connected ≡ true
          → F.is_open s.client.outgoing_messages ≡ true
          → Runs
              (sent ++ (frame_message ∷ codec'.serialize m) ∷ [])
              (record s { client = send_message F codec' m s.client })
      writes :
          {sent : List (List ℕ)} {s : Running F W M E D} (fuel : ℕ) (p : List ℕ)
          (ps : List (List ℕ)) (left : F.Channel (List ℕ)) (flow : Flow (ClientWriting F W))
          → Runs sent s
          → F.pending s.client.outgoing_messages ≡ p ∷ ps
          → F.try_recv s.client.outgoing_messages ≡ some (p, left)
          → F.pending left ≡ ps
          → length ps < fuel
          → client_writer_round F w fuel (received (some p)) (writing_of s left) ≡ some flow
          → Runs sent (after s (state flow))
      pings :
          {sent : List (List ℕ)} {s : Running F W M E D} (fuel now : ℕ)
          (flow : Flow (ClientWriting F W))
          → Runs sent s
          → client_writer_round F w fuel (tick now) (writing_of s s.client.outgoing_messages)
            ≡ some flow
          → Runs sent (after s (state flow))
      reads :
          {sent : List (List ℕ)} {s : Running F W M E D} (now : ℕ) (p : List ℕ)
          → Runs sent s
          → Runs sent (record s { client = state (on_frame F codec now p s.client) })
      ends :
          {sent : List (List ℕ)} {s : Running F W M E D}
          → Runs sent s
          → Runs sent (record s { client = on_read_error F s.client })
      disconnects :
          {sent : List (List ℕ)} {s : Running F W M E D}
          → Runs sent s
          → Runs sent (record s { client = disconnect F s.client })
      drains :
          {sent : List (List ℕ)} {s : Running F W M E D}
          → Runs sent s
          → Runs sent (record s { client = (iter_errors F (iter_server_messages F s.client).1).1 })

pub encode_all-append :
    (ps qs : List (List ℕ)) → encode_all (ps ++ qs) ≡ encode_all ps ++ encode_all qs
unfolding encode_all
encode_all-append [] qs = refl
encode_all-append (p ∷ ps) qs =
    ap (λ l. encode p ++ l) (encode_all-append ps qs)
    ∙ sym (append_assoc (encode p) (encode_all ps) (encode_all qs))

pub some-injective : {A : Type 0} {a b : A} → some a ≡ some b → a ≡ b
some-injective h = cc

pub true-ne-false : ¬ (true ≡ false)
true-ne-false h = cc

module _ (F : Flume) (laws : IsFifo F) {W : Type 0} (w : ByteWriter W) (wl : IsWriter w) where
  open wl use {written, on_stream}

  pub send_ping_cases :
      (x : Writing F W)
      → ((y : Writing F W) × (send_ping F w x ≡ stops y) × (y.connected ≡ false))
        ⊎ ((sink : W) × (send_ping F w x ≡ continues (record x { sink = sink }))
            × (written sink ≡ written x.sink ++ encode (frame_ping ∷ []))
            × (on_stream sink ≡ written sink))
  unfolding send_ping disconnected
  send_ping_cases x = elim (write_one_cases F laws w wl (frame_ping ∷ []) x) [
    | inl stopped ↦ inl (disconnected F w x, rw (stopped, send_ping) refl, refl)
    | inr (sink, went, bytes) ↦
        let x' : Writing F W = record x { sink = sink } in
        elim (flush_all_cases F laws w wl x') [
          | inl stopped ↦ inl (disconnected F w x', rw (went, send_ping) stopped, refl)
          | inr (sink', flushed, kept, out) ↦
              inr (sink', rw (went, send_ping) flushed, kept ∙ bytes, out)
        ]
  ]
