-- ===== src/Tokio/Client/Frames.antt =====
-- What one frame does to a client whose queues have receivers.
use mathlib.Core.List.{append-nil, append_assoc}
use brilliance_network.Prelude.{
  ℕ, ◌≡◌, refl, sym, ◌∙◌, ap, inl, inr, true, List, [], ◌∷◌, ◌++◌, ◌==◌, if◌then◌else◌, arith,
  Bool-cases, ==_iff,
}
use brilliance_network.Channel.{Flume, IsFifo, Codec, Decoded, ok, err, send_ok, pending-send_ok}
use brilliance_network.Tokio.Frame.{frame_message, frame_pong}
use brilliance_network.Tokio.Reader.{continues}
use brilliance_network.Tokio.Client.{
  TokioClient, ErrorText, message_decode, on_frame, on_message, on_pong,
}

module _ {M E : Type 0} (codec : Codec M E) where
  -- The message that a frame carries, or the error that it makes.
  unfoldable pub message_of : List ℕ → List M
  message_of [] = []
  message_of (kind ∷ body) =
      if kind == frame_message
      then (elim (codec.deserialize body) [ ok m ↦ m ∷ [] | err e ↦ [] ])
      else []

  unfoldable pub error_of : List ℕ → List (ErrorText E)
  error_of [] = []
  error_of (kind ∷ body) =
      if kind == frame_message
      then (elim (codec.deserialize body) [ ok m ↦ [] | err e ↦ message_decode e ∷ [] ])
      else []

  unfoldable pub messages_of : List (List ℕ) → List M
  messages_of [] = []
  messages_of (p ∷ ps) = message_of p ++ messages_of ps

  unfoldable pub errors_of : List (List ℕ) → List (ErrorText E)
  errors_of [] = []
  errors_of (p ∷ ps) = error_of p ++ errors_of ps

  pub messages_of-snoc :
      (ps : List (List ℕ)) (p : List ℕ)
      → messages_of (ps ++ p ∷ []) ≡ messages_of ps ++ message_of p
  unfolding messages_of
  messages_of-snoc [] p = append-nil (message_of p)
  messages_of-snoc (q ∷ ps) p =
      ap (λ xs. message_of q ++ xs) (messages_of-snoc ps p)
      ∙ sym (append_assoc (message_of q) (messages_of ps) (message_of p))

  pub errors_of-snoc :
      (ps : List (List ℕ)) (p : List ℕ) → errors_of (ps ++ p ∷ []) ≡ errors_of ps ++ error_of p
  unfolding errors_of
  errors_of-snoc [] p = append-nil (error_of p)
  errors_of-snoc (q ∷ ps) p =
      ap (λ xs. error_of q ++ xs) (errors_of-snoc ps p)
      ∙ sym (append_assoc (error_of q) (errors_of ps) (error_of p))

module _ (F : Flume) (laws : IsFifo F) {M E D : Type 0} (codec : Codec M E) where
  -- The frame is handled, and its message or error stands last in the queue.
  pub record Handled (p : List ℕ) (c t : TokioClient F M E D) : Type 0 where
    pub messages :
        F.pending t.incoming_messages ≡ F.pending c.incoming_messages ++ message_of codec p
    pub errors : F.pending t.incoming_errors ≡ F.pending c.incoming_errors ++ error_of codec p
    pub messages_open : F.is_open t.incoming_messages ≡ true
    pub errors_open : F.is_open t.incoming_errors ≡ true
    pub same : t.connected ≡ c.connected

  module _ (c : TokioClient F M E D) (m_open : F.is_open c.incoming_messages ≡ true)
      (e_open : F.is_open c.incoming_errors ≡ true) where
    on_message-Handled :
        (body : List ℕ) (d : Decoded M E)
        → codec.deserialize body ≡ d
        → (t : TokioClient F M E D) × (on_message F codec body c ≡ continues t)
          × Handled (frame_message ∷ body) c t
    unfolding on_message message_of error_of
    on_message-Handled body (ok m) e =
        let (left, sent, queued, o) = laws.send-open m c.incoming_messages m_open in
        (
          record c { incoming_messages = left },
          rw (e, sent, on_message) refl,
          record {
            messages = rw e queued;
            errors = rw e (sym (append-nil (F.pending c.incoming_errors)));
            messages_open = o;
            errors_open = e_open;
            same = refl;
          },
        )
    on_message-Handled body (err x) e =
        let (queued, o) = pending-send_ok F laws (message_decode x) c.incoming_errors e_open in
        (
          record c { incoming_errors = send_ok F (message_decode x) c.incoming_errors },
          rw (e, on_message) refl,
          record {
            messages = rw e (sym (append-nil (F.pending c.incoming_messages)));
            errors = rw e queued;
            messages_open = m_open;
            errors_open = o;
            same = refl;
          },
        )

    -- A frame with no message changes neither queue.
    idle-Handled :
        (p : List ℕ) (t : TokioClient F M E D)
        → message_of codec p ≡ []
        → error_of codec p ≡ []
        → t.incoming_messages ≡ c.incoming_messages
        → t.incoming_errors ≡ c.incoming_errors
        → t.connected ≡ c.connected
        → Handled p c t
    idle-Handled p t no_message no_error a b s = record {
      messages = rw (a, no_message) (sym (append-nil (F.pending c.incoming_messages)));
      errors = rw (b, no_error) (sym (append-nil (F.pending c.incoming_errors)));
      messages_open = rw a m_open;
      errors_open = rw b e_open;
      same = s;
    }

    on_pong-keeps :
        (now : ℕ)
        → ((on_pong F codec now c).incoming_messages ≡ c.incoming_messages)
          × ((on_pong F codec now c).incoming_errors ≡ c.incoming_errors)
          × ((on_pong F codec now c).connected ≡ c.connected)
    unfolding on_pong
    on_pong-keeps now = ground arith

    -- Every frame is handled, and the task goes on.
    pub on_frame-Handled :
        (now : ℕ) (p : List ℕ)
        → (t : TokioClient F M E D) × (on_frame F codec now p c ≡ continues t) × Handled p c t
    unfolding on_frame
    on_frame-Handled now [] = (
      c,
      refl,
      idle-Handled [] c (unfold message_of in refl) (unfold error_of in refl) refl refl refl,
    )
    on_frame-Handled now (kind ∷ body) = elim (Bool-cases (kind == frame_message)) [
      | inl message ↦
          let k : kind ≡ frame_message = (==_iff kind frame_message).0 message in
          rw k (on_message-Handled body (codec.deserialize body) refl)
      | inr other ↦
          let no_message : message_of codec (kind ∷ body) ≡ [] =
            unfold message_of in rw other refl in
          let no_error : error_of codec (kind ∷ body) ≡ [] = unfold error_of in rw other refl in
          elim (Bool-cases (kind == frame_pong)) [
            | inl pong ↦
                let (a, b, s) = on_pong-keeps now in
                (
                  on_pong F codec now c,
                  rw (other, pong) refl,
                  idle-Handled (kind ∷ body) (on_pong F codec now c) no_message no_error a b s,
                )
            | inr unknown ↦ (
              c,
              rw (other, unknown) refl,
              idle-Handled (kind ∷ body) c no_message no_error refl refl refl,
            )
          ]
    ]
