-- ===== src/Tokio/Client/Delivery.antt =====
-- A client's reader task, over all that a server sends.
use mathlib.Core.List.{append-nil, append_assoc}
use brilliance_network.Prelude.{
  ℕ, suc, ◌+◌, ◌-◌, ◌<◌, ◌≡◌, refl, sym, ◌∙◌, ap, inl, inr, true, false, some, List, [], ◌∷◌, ◌++◌,
  arith, length, All,
}
use brilliance_network.Channel.{Flume, IsFifo, Codec}
use brilliance_network.Tokio.Frame.{ByteReader, IsReader}
use brilliance_network.Tokio.Frame.RoundTrip.{encode_all, Fits, read_frame_at_end}
use brilliance_network.Tokio.Reader.{Flow, continues, stops, read_loop}
use brilliance_network.Tokio.Reader.Steps.{read_loop-err, continues-injective, stops-ne-continues}
use brilliance_network.Tokio.Reader.Frames.{read_loop_frames}
use brilliance_network.Tokio.Reader.Termination.{read_loop_ends}
use brilliance_network.Tokio.Client.{TokioClient, on_frame, on_read_error, client_reader_task}
use brilliance_network.Tokio.Client.Frames.{
  message_of, error_of, messages_of, errors_of, messages_of-snoc, errors_of-snoc, on_frame-Handled,
}

module _ (F : Flume) (laws : IsFifo F) {M E D Rd : Type 0} (codec : Codec M E) (r : ByteReader Rd)
    (rl : IsReader r) (clock : Rd → ℕ) where
  open rl use {contents}

  -- The queues of `t` hold those of `c` and what the frames carry.
  pub record Received (c : TokioClient F M E D) (ps : List (List ℕ)) (t : TokioClient F M E D)
      : Type 0 where
    pub messages :
        F.pending t.incoming_messages ≡ F.pending c.incoming_messages ++ messages_of codec ps
    pub errors : F.pending t.incoming_errors ≡ F.pending c.incoming_errors ++ errors_of codec ps
    pub messages_open : F.is_open t.incoming_messages ≡ true
    pub errors_open : F.is_open t.incoming_errors ≡ true
    pub same : t.connected ≡ c.connected

  handle : Rd → List ℕ → TokioClient F M E D → Flow (TokioClient F M E D)
  handle at = on_frame F codec (clock at)

  Received-snoc :
      (c : TokioClient F M E D) (ps : List (List ℕ)) (next : Rd) (p : List ℕ)
      (s : TokioClient F M E D)
      → Received c ps s
      → (t : TokioClient F M E D) × (handle next p s ≡ continues t) × Received c (ps ++ p ∷ []) t
  unfolding handle
  Received-snoc c ps next p s v =
      let (t, goes, h) =
        on_frame-Handled F laws codec s v.messages_open v.errors_open (clock next) p in
      (
        t,
        goes,
        record {
          messages =
              h.messages
              ∙ ap (λ xs. xs ++ message_of codec p) v.messages
              ∙ append_assoc (F.pending c.incoming_messages) (messages_of codec ps)
                  (message_of codec p)
              ∙ ap (λ xs. F.pending c.incoming_messages ++ xs) (sym (messages_of-snoc codec ps p));
          errors =
              h.errors
              ∙ ap (λ xs. xs ++ error_of codec p) v.errors
              ∙ append_assoc (F.pending c.incoming_errors) (errors_of codec ps) (error_of codec p)
              ∙ ap (λ xs. F.pending c.incoming_errors ++ xs) (sym (errors_of-snoc codec ps p));
          messages_open = h.messages_open;
          errors_open = h.errors_open;
          same = h.same ∙ v.same;
        },
      )

  -- The reader task of a client whose queues have receivers, over a stream that holds whole frames
  -- within the limit and then ends, with more fuel than frames: it ends too, all messages of the
  -- stream stand in the queue in their order, a message that does not decode has made an error and
  -- nothing else, and the client is disconnected.
  pub client_reader_task-stream :
      (c : TokioClient F M E D) (ps : List (List ℕ)) (at : Rd) (fuel : ℕ)
      → F.is_open c.incoming_messages ≡ true
      → F.is_open c.incoming_errors ≡ true
      → All Fits ps
      → contents at ≡ encode_all ps
      → length ps < fuel
      → (t : TokioClient F M E D) × (client_reader_task F codec r clock fuel at c ≡ some t)
        × (F.pending t.incoming_messages ≡ F.pending c.incoming_messages ++ messages_of codec ps)
        × (F.pending t.incoming_errors ≡ F.pending c.incoming_errors ++ errors_of codec ps)
        × (t.connected ≡ false)
  unfolding client_reader_task handle on_read_error
  client_reader_task-stream c ps at fuel m_open e_open fits e h =
      let left = fuel - length ps - 1 in
      let enough : fuel ≡ length ps + suc left = omega arith in
      let begin : Received c [] c = record {
        messages = unfold messages_of in sym (append-nil (F.pending c.incoming_messages));
        errors = unfold errors_of in sym (append-nil (F.pending c.incoming_errors));
        messages_open = m_open;
        errors_open = e_open;
        same = refl;
      } in
      let (next, t, loops, end, v) =
        read_loop_frames r rl handle (on_read_error F) (Received c)
          (λ ps next p s v. Received-snoc c ps next p s v) [] ps [] at c (suc left) fits
          (e ∙ sym (append-nil (encode_all ps))) begin in
      let (x, failed) = read_frame_at_end r rl next end in
      (
        on_read_error F t,
        ap (λ k. read_loop r handle (on_read_error F) k at c) enough
            ∙ loops
            ∙ read_loop-err r handle (on_read_error F) left next t x failed,
        v.messages,
        v.errors,
        refl,
      )

  -- The queue for messages has its receiver.
  abbrev IsHeard : TokioClient F M E D → Type 0
  IsHeard c = (F.is_open c.incoming_messages ≡ true) × (F.is_open c.incoming_errors ≡ true)

  -- Whatever bytes the stream holds, the reader task of a client whose queues have receivers ends,
  -- within as many rounds as there are bytes and one, and leaves the client disconnected.
  pub client_reader_task-ends :
      (c : TokioClient F M E D) (at : Rd) (fuel : ℕ)
      → F.is_open c.incoming_messages ≡ true
      → F.is_open c.incoming_errors ≡ true
      → length (contents at) < fuel
      → (t : TokioClient F M E D) × (client_reader_task F codec r clock fuel at c ≡ some t)
        × (t.connected ≡ false)
  unfolding client_reader_task handle on_read_error
  client_reader_task-ends c at fuel m_open e_open h =
      let (t, ends, why) =
        read_loop_ends r rl handle (on_read_error F) IsHeard keep fuel at c h (m_open, e_open) in
      elim why [
        | inl (u, _, e) ↦ (t, ends, ap (λ k. k.connected) e)
        | inr (u, next, p, inv, stopped) ↦ absurd (never next p u t inv stopped)
      ]
    where
      keep :
          (next : Rd) (p : List ℕ) (u t : TokioClient F M E D)
          → IsHeard u
          → handle next p u ≡ continues t
          → IsHeard t
      keep next p u t (a, b) e =
          let (t', goes, v) = on_frame-Handled F laws codec u a b (clock next) p in
          rw (continues-injective t t' (sym e ∙ goes)) (v.messages_open, v.errors_open)

      never :
          (next : Rd) (p : List ℕ) (u t : TokioClient F M E D)
          → IsHeard u
          → handle next p u ≡ stops t
          → ⊥
      never next p u t (a, b) e =
          let (t', goes, _) = on_frame-Handled F laws codec u a b (clock next) p in
          stops-ne-continues t t' (sym e ∙ goes)
