-- ===== src/Tokio/Connection/Frames.antt =====
-- What one frame does to a connection of the server whose queues have receivers.
use mathlib.Core.List.{append-nil, append_assoc}
use brilliance_network.Prelude.{
  ℕ, ◌≡◌, refl, sym, ◌∙◌, ap, inl, inr, List, [], ◌∷◌, ◌++◌, ◌==◌, if◌then◌else◌, true, Bool-cases,
  ==_iff,
}
use brilliance_network.Channel.{Flume, IsFifo, Codec, Decoded, ok, err, send_ok, pending-send_ok}
use brilliance_network.Tokio.Frame.{frame_message, frame_ping, frame_pong}
use brilliance_network.Tokio.Reader.{continues}
use brilliance_network.Tokio.Connection.{
  ConnectionReader, ErrorText, message_decode, on_message, on_ping, on_frame,
}

-- The answer to a frame: a pong to a ping.
unfoldable pub answer_of : List ℕ → List (List ℕ)
answer_of [] = []
answer_of (kind ∷ body) =
    if kind == frame_message then [] else if kind == frame_ping then (frame_pong ∷ []) ∷ [] else []

module _ {M E : Type 0} (codec : Codec M E) where
  -- The message of a frame, or the error that it makes.
  unfoldable pub sent_by : List ℕ → List M
  sent_by [] = []
  sent_by (kind ∷ body) =
      if kind == frame_message
      then (elim (codec.deserialize body) [ ok m ↦ m ∷ [] | err e ↦ [] ])
      else []

  unfoldable pub fault_of : List ℕ → List (ErrorText E)
  fault_of [] = []
  fault_of (kind ∷ body) =
      if kind == frame_message
      then (elim (codec.deserialize body) [ ok m ↦ [] | err e ↦ message_decode e ∷ [] ])
      else []

module _ (F : Flume) (laws : IsFifo F) {M E : Type 0} where
  pub record IsOpen (c : ConnectionReader F M E) : Type 0 where
    pub messages : F.is_open c.cell.client_messages ≡ true
    pub answers : F.is_open c.cell.outgoing ≡ true
    pub errors : F.is_open c.errors ≡ true

  -- The queues of `t` hold those of `c` and these values behind them.
  pub record Gained (ms : List M) (as' : List (List ℕ)) (es : List (ErrorText E))
      (c t : ConnectionReader F M E) : Type 0 where
    pub messages : F.pending t.cell.client_messages ≡ F.pending c.cell.client_messages ++ ms
    pub answers : F.pending t.cell.outgoing ≡ F.pending c.cell.outgoing ++ as'
    pub errors : F.pending t.errors ≡ F.pending c.errors ++ es
    pub open_still : IsOpen t

  pub nothing : (c : ConnectionReader F M E) → IsOpen c → Gained [] [] [] c c
  nothing c o = record {
    messages = sym (append-nil (F.pending c.cell.client_messages));
    answers = sym (append-nil (F.pending c.cell.outgoing));
    errors = sym (append-nil (F.pending c.errors));
    open_still = o;
  }

  pub Gained-trans :
      {ms ms' : List M} {xs xs' : List (List ℕ)} {es es' : List (ErrorText E)}
      {c s t : ConnectionReader F M E}
      → Gained ms xs es c s
      → Gained ms' xs' es' s t
      → Gained (ms ++ ms') (xs ++ xs') (es ++ es') c t
  Gained-trans {ms = ms} {ms' = ms'} {xs = xs} {xs' = xs'} {es = es} {es' = es'} {c = c} a b =
      record {
        messages =
            b.messages
            ∙ ap (λ l. l ++ ms') a.messages
            ∙ append_assoc (F.pending c.cell.client_messages) ms ms';
        answers =
            b.answers
            ∙ ap (λ l. l ++ xs') a.answers
            ∙ append_assoc (F.pending c.cell.outgoing) xs xs';
        errors = b.errors ∙ ap (λ l. l ++ es') a.errors ∙ append_assoc (F.pending c.errors) es es';
        open_still = b.open_still;
      }

  module _ (codec : Codec M E) (c : ConnectionReader F M E) (o : IsOpen c) where
    on_message-Gained :
        (body : List ℕ) (d : Decoded M E)
        → codec.deserialize body ≡ d
        → let p = frame_message ∷ body in
          (t : ConnectionReader F M E) × (on_message F codec body c ≡ continues t)
          × Gained (sent_by codec p) [] (fault_of codec p) c t
    unfolding on_message sent_by fault_of
    on_message-Gained body (ok m) e =
        let (left, sent, queued, h) = laws.send-open m c.cell.client_messages o.messages in
        (
          record c { cell = record (c.cell) { client_messages = left } },
          rw (e, sent, on_message) refl,
          rw e (record {
            messages = queued;
            answers = sym (append-nil (F.pending c.cell.outgoing));
            errors = sym (append-nil (F.pending c.errors));
            open_still = record { messages = h; answers = o.answers; errors = o.errors };
          }),
        )
    on_message-Gained body (err x) e =
        let (queued, h) = pending-send_ok F laws (message_decode x) c.errors o.errors in
        (
          record c { errors = send_ok F (message_decode x) c.errors },
          rw (e, on_message) refl,
          rw e (record {
            messages = sym (append-nil (F.pending c.cell.client_messages));
            answers = sym (append-nil (F.pending c.cell.outgoing));
            errors = queued;
            open_still = record { messages = o.messages; answers = o.answers; errors = h };
          }),
        )

    on_ping-Gained : Gained [] ((frame_pong ∷ []) ∷ []) [] c (on_ping F codec c)
    unfolding on_ping
    on_ping-Gained =
        let (queued, h) = pending-send_ok F laws (frame_pong ∷ []) c.cell.outgoing o.answers in
        record {
          messages = sym (append-nil (F.pending c.cell.client_messages));
          answers = queued;
          errors = sym (append-nil (F.pending c.errors));
          open_still = record { messages = o.messages; answers = h; errors = o.errors };
        }

    pub on_frame-Gained :
        (p : List ℕ)
        → (t : ConnectionReader F M E) × (on_frame F codec p c ≡ continues t)
          × Gained (sent_by codec p) (answer_of p) (fault_of codec p) c t
    unfolding on_frame sent_by answer_of fault_of
    on_frame-Gained [] = (c, refl, nothing c o)
    on_frame-Gained (kind ∷ body) = elim (Bool-cases (kind == frame_message)) [
      | inl message ↦
          let k : kind ≡ frame_message = (==_iff kind frame_message).0 message in
          rw k (on_message-Gained body (codec.deserialize body) refl)
      | inr other ↦ elim (Bool-cases (kind == frame_ping)) [
        | inl ping ↦ rw (other, ping) (on_ping F codec c, refl, on_ping-Gained)
        | inr unknown ↦ rw (other, unknown) (c, refl, nothing c o)
      ]
    ]
