-- ===== src/Tokio/EndToEnd.antt =====
-- From the `send_message` of a connection (src/tokio/server.rs), over the batch of its writer and the
-- bytes of the stream, to the reader of the client (src/tokio/client.rs).
use mathlib.Core.List.{append-nil, append_assoc}
use brilliance_network.Prelude.{
  ℕ, suc, ◌<◌, ◌≡◌, refl, sym, ◌∙◌, ap, subst, true, some, List, [], ◌∷◌, ◌++◌, arith, map, length,
  All,
}
use brilliance_network.Channel.{Flume, IsFifo, Codec, IsRoundTrip, send_ok, pending-send_ok}
use brilliance_network.Tokio.Frame.{ByteReader, ByteWriter, IsReader, IsWriter, frame_message}
use brilliance_network.Tokio.Frame.RoundTrip.{encode_all, Fits}
use brilliance_network.Tokio.Reader.{continues}
use brilliance_network.Tokio.Writer.{Writing, write_received}
use brilliance_network.Tokio.Writer.Batch.{Wrote, Flushed, write_received_lem}
use brilliance_network.Tokio.Connection.{Cell, send_message}
use brilliance_network.Tokio.Client.{TokioClient, client_reader_task}
use brilliance_network.Tokio.Client.Frames.{message_of, error_of, messages_of, errors_of}
use brilliance_network.Tokio.Client.Delivery.{client_reader_task-stream}

some-injective : {A : Type 0} {a b : A} → some a ≡ some b → a ≡ b
some-injective h = cc

length-map : {A B : Type 0} (f : A → B) (xs : List A) → length (map f xs) ≡ length xs
length-map f [] = refl
length-map f (x ∷ xs) = ap suc (length-map f xs)

module _ {M E : Type 0} (codec : Codec M E) where
  -- The payload that carries a message.
  abbrev pub payload : M → List ℕ
  payload m = frame_message ∷ codec.serialize m

  messages_of-payload :
      IsRoundTrip codec
      → (ms : List M)
      → (messages_of codec (map payload ms) ≡ ms) × (errors_of codec (map payload ms) ≡ [])
  unfolding messages_of errors_of message_of error_of
  messages_of-payload rt [] = (refl, refl)
  messages_of-payload rt (m ∷ ms) =
      let (messages, errors) = messages_of-payload rt ms in
      rw (rt.deserialize-serialize m, messages, errors) (refl, refl)

  module _ (F : Flume) {In : Type 0} where
    unfoldable pub send_each : List M → Cell F In → Cell F In
    send_each [] c = c
    send_each (m ∷ ms) c = send_each ms (send_message F codec m c)

    send_message-connected :
        (m : M) (c : Cell F In)
        → c.connected ≡ true
        → send_message F codec m c ≡ record c { outgoing = send_ok F (payload m) c.outgoing }
    unfolding send_message
    send_message-connected m c k = rw (k, send_message) refl

    module _ (laws : IsFifo F) where
      pending-send_each :
          (ms : List M) (c : Cell F In)
          → c.connected ≡ true
          → F.is_open c.outgoing ≡ true
          → F.pending (send_each ms c).outgoing ≡ F.pending c.outgoing ++ map payload ms
      unfolding send_each
      pending-send_each [] c k o = sym (append-nil (F.pending c.outgoing))
      pending-send_each (m ∷ ms) c k o =
          let next : Cell F In = record c { outgoing = send_ok F (payload m) c.outgoing } in
          let (queued, open_still) = pending-send_ok F laws (payload m) c.outgoing o in
          ap (λ x. F.pending (send_each ms x).outgoing) (send_message-connected m c k)
          ∙ pending-send_each ms next k open_still
          ∙ ap (λ xs. xs ++ map payload ms) queued
          ∙ append_assoc (F.pending c.outgoing) (payload m ∷ []) (map payload ms)

module _ (F : Flume) (laws : IsFifo F) {In M E D W Rd : Type 0} (codec : Codec M E)
    (rt : IsRoundTrip codec) (w : ByteWriter W) (wl : IsWriter w) (r : ByteReader Rd)
    (rl : IsReader r) (clock : Rd → ℕ) where
  -- Some messages, with payloads within the limit and an encoding that is read back, are sent on a
  -- connection whose flag is set and whose queue is empty and has its receiver. The writer takes the
  -- first and runs a round that goes on. The client, whose queues have receivers, reads what has gone
  -- over the stream, which then ends; its fuel is more than the number of messages. Then it has
  -- exactly these messages, in order, behind those it had, and no new errors.
  pub messages_arrive :
      (m : M) (ms : List M) (cell : Cell F In) (p : List ℕ) (q : F.Channel (List ℕ))
      (s t : Writing F W) (at : Rd) (c : TokioClient F M E D) (fuel : ℕ)
      → cell.connected ≡ true
      → F.is_open cell.outgoing ≡ true
      → F.pending cell.outgoing ≡ []
      → F.try_recv (send_each codec F (m ∷ ms) cell).outgoing ≡ some (p, q)
      → s.outgoing ≡ q
      → wl.written s.sink ≡ []
      → write_received F w fuel (some p) s ≡ some (continues t)
      → rl.contents at ≡ wl.on_stream t.sink
      → F.is_open c.incoming_messages ≡ true
      → F.is_open c.incoming_errors ≡ true
      → All Fits (map (payload codec) (m ∷ ms))
      → suc (length ms) < fuel
      → (u : TokioClient F M E D) × (client_reader_task F codec r clock fuel at c ≡ some u)
        × (F.pending u.incoming_messages ≡ F.pending c.incoming_messages ++ m ∷ ms)
        × (F.pending u.incoming_errors ≡ F.pending c.incoming_errors)
  messages_arrive m ms cell p q s t at c fuel k o none_left taken rest start ran arrives m_open
        e_open fits h =
      let sent : F.pending (send_each codec F (m ∷ ms) cell).outgoing
          ≡ payload codec m ∷ map (payload codec) ms =
        pending-send_each codec F laws (m ∷ ms) cell k o
        ∙ ap (λ xs. xs ++ map (payload codec) (m ∷ ms)) none_left in
      let (d, got, left, _) =
        laws.try_recv-cons (payload codec m) (map (payload codec) ms)
          (send_each codec F (m ∷ ms) cell).outgoing sent in
      let same : (payload codec m, d) ≡ (p, q) = some-injective (sym got ∙ taken) in
      let queued : F.pending s.outgoing ≡ map (payload codec) ms =
        ap F.pending (rest ∙ ap (λ x. x.1) (sym same)) ∙ left in
      let few : length (F.pending s.outgoing) < fuel =
        omega (arith, ap length queued, length-map (payload codec) ms) in
      let (flow, went, wrote, out) = write_received_lem F laws w wl fuel p s few in
      let goes : flow ≡ continues t = some-injective (sym went ∙ ran) in
      let bytes = (subst (Wrote F laws w wl s (p ∷ F.pending s.outgoing)) goes wrote).0 in
      let stream : rl.contents at ≡ encode_all (map (payload codec) (m ∷ ms)) =
        arrives
        ∙ subst (Flushed F laws w wl) goes out
        ∙ bytes
        ∙ ap (λ xs. xs ++ encode_all (p ∷ F.pending s.outgoing)) start
        ∙ rw (queued, ap (λ x. x.0) (sym same)) refl in
      let (u, reads, messages, errors, _) =
        client_reader_task-stream F laws codec r rl clock c (map (payload codec) (m ∷ ms)) at fuel
          m_open e_open fits stream (omega (arith, length-map (payload codec) ms)) in
      let (all, no_errors) = messages_of-payload codec rt (m ∷ ms) in
      (
        u,
        reads,
        messages ∙ ap (λ xs. F.pending c.incoming_messages ++ xs) all,
        errors
            ∙ ap (λ xs. F.pending c.incoming_errors ++ xs) no_errors
            ∙ append-nil (F.pending c.incoming_errors),
      )
