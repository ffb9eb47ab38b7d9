-- ===== src/Renet/Server/Receiving.antt =====
-- What the UDP server does with the messages that wait in the crate `renet`: one client's.
use mathlib.Core.List.{append-nil, append_assoc}
use brilliance_network.Prelude.{
  ℕ, ◌<◌, ◌≡◌, ◌≢◌, refl, sym, ◌∙◌, ap, subst, true, some, none, List, [], ◌∷◌, ◌++◌, length,
  collect, collect-append, Bool-cases, ==_iff, ◌==◌, inl, inr, arith,
}
use brilliance_network.Channel.{
  Flume, IsFifo, Codec, Decoded, ok, err, value_of, collect-value_of-ok, collect-value_of-err,
}
use brilliance_network.Renet.Channels.{ClientChannel, client_channel_id}
use brilliance_network.Renet.Run.{ran, while_some, while_some_lem}
use brilliance_network.Renet.Server.{
  ServerCrates, RenetServerConnection, RenetServerNetwork, Cell, set_cell,
}
use brilliance_network.Renet.Server.Cells.{set_cell_same, set_cell_other}
use brilliance_network.Renet.Server.Step.{receive_next, on_client_message}
use brilliance_network.Renet.Server.Events.{IsServerBox}

module _ (F : Flume) (laws : IsFifo F) {S T M E Err : Type 0} (codec : Codec M E) where
  -- The queue of a connection holds what `xs` decode to behind what it held, and all else is as it
  -- was, but for the state of the crate.
  pub record Got (c : RenetServerConnection) (xs : List (List ℕ))
      (n t : RenetServerNetwork F S T M Err) : Type 0 where
    pub messages :
        F.pending (t.cells c.cell).client_messages
        ≡ F.pending (n.cells c.cell).client_messages ++ collect (value_of codec) xs
    pub is_open : F.is_open (t.cells c.cell).client_messages ≡ true
    pub time : (t.cells c.cell).disconnect_at ≡ (n.cells c.cell).disconnect_at
    pub others : (i : ℕ) → i ≢ c.cell → t.cells i ≡ n.cells i
    pub same : t ≡ record n { server = t.server; cells = t.cells }

  pub Got-nil :
      (c : RenetServerConnection) (n : RenetServerNetwork F S T M Err)
      → F.is_open (n.cells c.cell).client_messages ≡ true
      → Got c [] n n
  unfolding collect
  Got-nil c n o = record {
    messages = sym (append-nil (F.pending (n.cells c.cell).client_messages));
    is_open = o;
    time = refl;
    others = λ i d. refl;
    same = refl;
  }

  pub Got-trans :
      {c : RenetServerConnection} {xs ys : List (List ℕ)} {n s t : RenetServerNetwork F S T M Err}
      → Got c xs n s
      → Got c ys s t
      → Got c (xs ++ ys) n t
  Got-trans {c = c} {xs = xs} {ys = ys} {n = n} {t = t} a b =
      let before = F.pending (n.cells c.cell).client_messages in
      let now : RenetServerNetwork F S T M Err → RenetServerNetwork F S T M Err =
        λ q. record q { server = t.server; cells = t.cells } in
      record {
        messages =
            b.messages
            ∙ ap (λ l. l ++ collect (value_of codec) ys) a.messages
            ∙ append_assoc before (collect (value_of codec) xs) (collect (value_of codec) ys)
            ∙ ap (λ l. before ++ l) (sym (collect-append (value_of codec) xs ys));
        is_open = b.is_open;
        time = b.time ∙ a.time;
        others = λ i d. b.others i d ∙ a.others i d;
        same = b.same ∙ ap now a.same;
      }

  pub Got-is_open :
      {c : RenetServerConnection} {xs : List (List ℕ)} {n t : RenetServerNetwork F S T M Err}
      → Got c xs n t
      → (i : ℕ) → F.is_open (n.cells i).client_messages ≡ true
      → F.is_open (t.cells i).client_messages ≡ true
  Got-is_open {c = c} {t = t} v i o = elim (Bool-cases (i == c.cell)) [
    | inl e ↦
        let e' : i ≡ c.cell = (==_iff i c.cell).0 e in
        ap (λ j. F.is_open (t.cells j).client_messages) e' ∙ v.is_open
    | inr d ↦
        let d' : i ≢ c.cell = ground arith in
        ap (λ q. F.is_open q.client_messages) (v.others i d') ∙ o
  ]

  module _ {Duration Reason Addr : Type 0} (api : ServerCrates S T Duration Err Reason Addr) where
    -- One message is handled.
    on_client_message-Got :
        (c : RenetServerConnection) (x : List ℕ) (n : RenetServerNetwork F S T M Err) (server : S)
        (d : Decoded M E)
        → F.is_open (n.cells c.cell).client_messages ≡ true
        → codec.deserialize x ≡ d
        → (t : RenetServerNetwork F S T M Err) × (on_client_message F api codec c x
              (record n { server = server })
            ≡ ran t)
          × Got c (x ∷ []) n t
          × (t.server ≡ server)
    unfolding on_client_message
    on_client_message-Got c x n server (ok m) o e =
        let cell = n.cells c.cell in
        let (left, sent, queued, o') = laws.send-open m cell.client_messages o in
        let after : Cell F M = record cell { client_messages = left } in
        let now = set_cell_same c.cell after n.cells in
        (
          record n { server = server; cells = set_cell c.cell after n.cells },
          rw (e, sent, on_client_message) refl,
          record {
            messages =
                ap (λ k. F.pending k.client_messages) now
                ∙ (rw (collect-value_of-ok codec x m e) queued);
            is_open = ap (λ k. F.is_open k.client_messages) now ∙ o';
            time = ap (λ k. k.disconnect_at) now;
            others = set_cell_other c.cell after n.cells;
            same = refl;
          },
          refl,
        )
    on_client_message-Got c x n server (err y) o e =
        let nothing = sym (append-nil (F.pending (n.cells c.cell).client_messages)) in
        (
          record n { server = server },
          rw (e, on_client_message) refl,
          record {
            messages = rw (collect-value_of-err codec x y e) nothing;
            is_open = o;
            time = refl;
            others = λ i d. refl;
            same = refl;
          },
          refl,
        )

    module _ (box : IsServerBox api) (c : RenetServerConnection) where
      open box use {inbox, events, receive-empty, receive-cons}

      -- What waits from the client of the connection on a channel.
      abbrev pub waiting : S → ClientChannel → List (List ℕ)
      waiting s k = inbox s c.client_id (client_channel_id k)

      -- `xs` are still to come on a channel, of all that stood there when the state was `n`.
      record Rest (k : ClientChannel) (n : RenetServerNetwork F S T M Err) (xs : List (List ℕ))
          (s : RenetServerNetwork F S T M Err) : Type 0 where
        taken : List (List ℕ)
        all_of : taken ++ xs ≡ waiting n.server k
        left : waiting s.server k ≡ xs
        so_far : Got c taken n s
        other_channels :
            (l : ℕ)
            → l ≢ client_channel_id k
            → inbox s.server c.client_id l ≡ inbox n.server c.client_id l
        other_clients : (j l : ℕ) → j ≢ c.client_id → inbox s.server j l ≡ inbox n.server j l
        same_events : events s.server ≡ events n.server

      Rest-last :
          (k : ClientChannel) (n s : RenetServerNetwork F S T M Err)
          → Rest k n [] s
          → receive_next F api c.client_id k s ≡ none
      unfolding receive_next
      Rest-last k n s p =
          rw (receive-empty c.client_id (client_channel_id k) s.server p.left, receive_next) refl

      Rest-more :
          (k : ClientChannel) (n : RenetServerNetwork F S T M Err) (x : List ℕ) (xs : List (List ℕ))
          (s : RenetServerNetwork F S T M Err)
          → Rest k n (x ∷ xs) s
          → (t u : RenetServerNetwork F S T M Err) × (receive_next F api c.client_id k s
              ≡ some (x, t))
            × (on_client_message F api codec c x t ≡ ran u)
            × Rest k n xs u
      unfolding receive_next
      Rest-more k n x xs s p =
          let i = c.client_id in
          let (r, got, now, channels, clients, told) =
            receive-cons i (client_channel_id k) s.server x xs p.left in
          let (u, done, v, e) =
            on_client_message-Got c x s r (codec.deserialize x) p.so_far.is_open refl in
          (
            record s { server = r },
            u,
            rw (got, receive_next) refl,
            done,
            record {
              taken = p.taken ++ x ∷ [];
              all_of = append_assoc p.taken (x ∷ []) xs ∙ p.all_of;
              left = ap (λ q. inbox q i (client_channel_id k)) e ∙ now;
              so_far = Got-trans p.so_far v;
              other_channels = λ l d. ap (λ q. inbox q i l) e ∙ channels l d ∙ p.other_channels l d;
              other_clients =
                  λ j l d. ap (λ q. inbox q j l) e ∙ clients j l d ∙ p.other_clients j l d;
              same_events = ap events e ∙ told ∙ p.same_events;
            },
          )

      -- A channel is emptied, and all that waits elsewhere is as it was.
      pub record Emptied (k : ClientChannel) (s t : S) : Type 0 where
        pub left : waiting t k ≡ []
        pub other_channels :
            (l : ℕ) → l ≢ client_channel_id k → inbox t c.client_id l ≡ inbox s c.client_id l
        pub other_clients : (j l : ℕ) → j ≢ c.client_id → inbox t j l ≡ inbox s j l
        pub same_events : events t ≡ events s

      pub receive_channel_lem :
          (k : ClientChannel) (n : RenetServerNetwork F S T M Err) (fuel : ℕ)
          → F.is_open (n.cells c.cell).client_messages ≡ true
          → length (waiting n.server k) < fuel
          → (t : RenetServerNetwork F S T M Err) × (while_some
                (receive_next F api c.client_id k)
                (on_client_message F api codec c)
                fuel
                n
              ≡ ran t)
            × Got c (waiting n.server k) n t
            × Emptied k n.server t.server
      receive_channel_lem k n fuel o h =
          let begin : Rest k n (waiting n.server k) n = record {
            taken = [];
            all_of = refl;
            left = refl;
            so_far = Got-nil c n o;
            other_channels = λ l d. refl;
            other_clients = λ j l d. refl;
            same_events = refl;
          } in
          let (t, ends, p) =
            while_some_lem (receive_next F api c.client_id k) (on_client_message F api codec c)
              (Rest k n) (Rest-last k n) (Rest-more k n) fuel (waiting n.server k) n h begin in
          let whole : p.taken ≡ waiting n.server k = sym (append-nil p.taken) ∙ p.all_of in
          (
            t,
            ends,
            subst (λ xs. Got c xs n t) whole p.so_far,
            record {
              left = p.left;
              other_channels = p.other_channels;
              other_clients = p.other_clients;
              same_events = p.same_events;
            },
          )
