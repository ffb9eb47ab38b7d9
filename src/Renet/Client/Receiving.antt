-- ===== src/Renet/Client/Receiving.antt =====
-- What the UDP client does with the messages that wait in the crate `renet`.
use mathlib.Core.List.{append-nil, append_assoc}
use brilliance_network.Prelude.{
  collect, collect-append, ℕ, ◌≡◌, ◌≢◌, refl, sym, ◌∙◌, ap, true, none, some, List, [], ◌∷◌, ◌++◌,
}
use brilliance_network.Channel.{
  Flume, IsFifo, Codec, Decoded, ok, err, value_of, collect-value_of-ok, collect-value_of-err,
}
use brilliance_network.Renet.Channels.{ServerChannel, server_channel_id}
use brilliance_network.Renet.Run.{ran}
use brilliance_network.Renet.Client.{
  ClientCrates, RenetClientNetwork, ErrorText, message_decode, send_network_error,
  on_server_message, receive_next,
}

-- What has come in and was not received, on each channel, oldest first: `receive_message` takes the
-- first of its channel and leaves the others.
pub record IsInbox {C T R Duration Err Reason : Type 0}
    (api : ClientCrates C T R Duration Err Reason) : Type 0 where
  pub inbox : C → ℕ → List (List ℕ)
  pub receive-empty : (k : ℕ) (c : C) → inbox c k ≡ [] → api.receive_message k c ≡ none
  pub receive-cons :
      (k : ℕ) (c : C) (m : List ℕ) (ms : List (List ℕ))
      → inbox c k ≡ m ∷ ms
      → (d : C) × (api.receive_message k c ≡ some (m, d))
        × (inbox d k ≡ ms)
        × ((j : ℕ) → j ≢ k → inbox d j ≡ inbox c j)

module _ {C T R Duration Err Reason : Type 0} {api : ClientCrates C T R Duration Err Reason}
    (box : IsInbox api) where
  -- What waits on a channel of the server.
  abbrev pub waiting : C → ServerChannel → List (List ℕ)
  waiting c k = box.inbox c (server_channel_id k)

  -- The other channels are as they were.
  abbrev pub OthersKept : ℕ → C → C → Type 0
  OthersKept k c d = (j : ℕ) → j ≢ k → box.inbox d j ≡ box.inbox c j

module _ {M E : Type 0} (codec : Codec M E) where
  -- The error that a message makes.
  unfoldable pub fault_of : {Err : Type 0} → List ℕ → List (ErrorText E Err)
  fault_of x = elim (codec.deserialize x) [ ok m ↦ [] | err e ↦ message_decode e ∷ [] ]

  one_value :
      {Err : Type 0} (x : List ℕ) (m : M)
      → codec.deserialize x ≡ ok m
      → (collect (value_of codec) (x ∷ []) ≡ m ∷ [])
        × (collect (fault_of {Err = Err}) (x ∷ []) ≡ [])
  unfolding collect fault_of
  one_value x m e =
      (collect-value_of-ok codec x m e, append-nil (fault_of x) ∙ rw (e, fault_of) refl)

  one_fault :
      {Err : Type 0} (x : List ℕ) (y : E)
      → codec.deserialize x ≡ err y
      → (collect (value_of codec) (x ∷ []) ≡ [])
        × (collect (fault_of {Err = Err}) (x ∷ []) ≡ message_decode y ∷ [])
  unfolding collect fault_of
  one_fault x y e =
      (collect-value_of-err codec x y e, append-nil (fault_of x) ∙ rw (e, fault_of) refl)

module _ (F : Flume) (laws : IsFifo F) {C T M E Err D : Type 0} (codec : Codec M E) where
  -- The queues of `t` hold those of `n` and what `xs` decode to, and all else is as it was, but for
  -- the state of the crate.
  pub record Received (xs : List (List ℕ)) (n t : RenetClientNetwork F C T M E Err D) : Type 0 where
    pub messages :
        F.pending t.network_decoder_out
        ≡ F.pending n.network_decoder_out ++ collect (value_of codec) xs
    pub errors :
        F.pending t.network_errors_out
        ≡ F.pending n.network_errors_out ++ collect (fault_of codec) xs
    pub messages_open : F.is_open t.network_decoder_out ≡ true
    pub errors_open : F.is_open t.network_errors_out ≡ true
    pub transport : t.transport ≡ n.transport
    pub debug_info : t.debug_info ≡ n.debug_info
    pub outgoing : t.network_client_sended ≡ n.network_client_sended

  pub Received-nil :
      (n : RenetClientNetwork F C T M E Err D)
      → F.is_open n.network_decoder_out ≡ true
      → F.is_open n.network_errors_out ≡ true
      → Received [] n n
  unfolding collect
  Received-nil n a b = record {
    messages = sym (append-nil (F.pending n.network_decoder_out));
    errors = sym (append-nil (F.pending n.network_errors_out));
    messages_open = a;
    errors_open = b;
    transport = refl;
    debug_info = refl;
    outgoing = refl;
  }

  pub Received-trans :
      {xs ys : List (List ℕ)} {n s t : RenetClientNetwork F C T M E Err D}
      → Received xs n s
      → Received ys s t
      → Received (xs ++ ys) n t
  Received-trans {xs = xs} {ys = ys} {n = n} a b = record {
    messages =
        b.messages
        ∙ ap (λ l. l ++ collect (value_of codec) ys) a.messages
        ∙ append_assoc (F.pending n.network_decoder_out) (collect (value_of codec) xs)
            (collect (value_of codec) ys)
        ∙ ap (λ l. F.pending n.network_decoder_out ++ l)
            (sym (collect-append (value_of codec) xs ys));
    errors =
        b.errors
        ∙ ap (λ l. l ++ collect (fault_of codec) ys) a.errors
        ∙ append_assoc (F.pending n.network_errors_out) (collect (fault_of codec) xs)
            (collect (fault_of codec) ys)
        ∙ ap (λ l. F.pending n.network_errors_out ++ l)
            (sym (collect-append (fault_of codec) xs ys));
    messages_open = b.messages_open;
    errors_open = b.errors_open;
    transport = b.transport ∙ a.transport;
    debug_info = b.debug_info ∙ a.debug_info;
    outgoing = b.outgoing ∙ a.outgoing;
  }

  module _ {R Duration Reason : Type 0} (api : ClientCrates C T R Duration Err Reason) where
    -- One message is handled.
    pub on_server_message-Received :
        (x : List ℕ) (n : RenetClientNetwork F C T M E Err D) (c : C) (d : Decoded M E)
        → F.is_open n.network_decoder_out ≡ true
        → F.is_open n.network_errors_out ≡ true
        → codec.deserialize x ≡ d
        → (t : RenetClientNetwork F C T M E Err D) × (on_server_message F api codec x
              (record n { client = c })
            ≡ ran t)
          × Received (x ∷ []) n t
          × (t.client ≡ c)
    unfolding on_server_message send_network_error
    on_server_message-Received x n c (ok m) a b e =
        let (value, no_fault) = one_value codec {Err = Err} x m e in
        let (left, sent, queued, o) = laws.send-open m n.network_decoder_out a in
        (
          record n { client = c; network_decoder_out = left },
          rw (e, sent, on_server_message) refl,
          record {
            messages = rw value queued;
            errors = rw no_fault (sym (append-nil (F.pending n.network_errors_out)));
            messages_open = o;
            errors_open = b;
            transport = refl;
            debug_info = refl;
            outgoing = refl;
          },
          refl,
        )
    on_server_message-Received x n c (err y) a b e =
        let (no_value, fault) = one_fault codec {Err = Err} x y e in
        let (left, sent, queued, o) = laws.send-open (message_decode y) n.network_errors_out b in
        (
          record n { client = c; network_errors_out = left },
          rw (e, sent, on_server_message, send_network_error) refl,
          record {
            messages = rw no_value (sym (append-nil (F.pending n.network_decoder_out)));
            errors = rw fault queued;
            messages_open = a;
            errors_open = o;
            transport = refl;
            debug_info = refl;
            outgoing = refl;
          },
          refl,
        )

  module _ {R Duration Reason : Type 0} (api : ClientCrates C T R Duration Err Reason)
      (box : IsInbox api) where
    open box use {inbox, receive-empty, receive-cons}

    -- `xs` are still to come on a channel, of all that stood there when the state was `n`.
    pub record Rest (k : ServerChannel) (n : RenetClientNetwork F C T M E Err D)
        (xs : List (List ℕ)) (s : RenetClientNetwork F C T M E Err D) : Type 0 where
      pub taken : List (List ℕ)
      pub all_of : taken ++ xs ≡ waiting box n.client k
      pub left : waiting box s.client k ≡ xs
      pub so_far : Received taken n s
      pub others : OthersKept box (server_channel_id k) n.client s.client

    pub Rest-last :
        (k : ServerChannel) (n s : RenetClientNetwork F C T M E Err D)
        → Rest k n [] s
        → receive_next F api codec k s ≡ none
    unfolding receive_next
    Rest-last k n s p = rw (receive-empty (server_channel_id k) s.client p.left, receive_next) refl

    pub Rest-more :
        (k : ServerChannel) (n : RenetClientNetwork F C T M E Err D) (x : List ℕ)
        (xs : List (List ℕ)) (s : RenetClientNetwork F C T M E Err D)
        → Rest k n (x ∷ xs) s
        → (t u : RenetClientNetwork F C T M E Err D) × (receive_next F api codec k s ≡ some (x, t))
          × (on_server_message F api codec x t ≡ ran u)
          × Rest k n xs u
    unfolding receive_next
    Rest-more k n x xs s p =
        let (c, got, now, same) = receive-cons (server_channel_id k) s.client x xs p.left in
        let (u, done, v, e) =
          on_server_message-Received api x s c (codec.deserialize x) p.so_far.messages_open
            p.so_far.errors_open refl in
        (
          record s { client = c },
          u,
          rw (got, receive_next) refl,
          done,
          record {
            taken = p.taken ++ x ∷ [];
            all_of = append_assoc p.taken (x ∷ []) xs ∙ p.all_of;
            left = ap (λ c. inbox c (server_channel_id k)) e ∙ now;
            so_far = Received-trans p.so_far v;
            others = λ j d. ap (λ c. inbox c j) e ∙ same j d ∙ p.others j d;
          },
        )
