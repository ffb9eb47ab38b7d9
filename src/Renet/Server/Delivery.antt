-- ===== src/Renet/Server/Delivery.antt =====
-- What the UDP server does with the messages that wait in the crate `renet`: all clients'.
use brilliance_network.Prelude.{
  ℕ, suc, ◌+◌, ◌<◌, ◌≡◌, ◌≢◌, refl, sym, ◌∙◌, ap, subst, true, List, [], ◌∷◌, ◌++◌, length, All,
  All-weaken, All-length, All-every, All-both, DistinctBy, collect, collect-ext, arith,
}
use brilliance_network.Channel.{Flume, IsFifo, Codec, value_of}
use brilliance_network.Renet.Channels.{ClientChannel, client_channel_id}
use brilliance_network.Renet.Run.{ran}
use brilliance_network.Renet.Server.{
  ServerCrates, RenetServerConnection, RenetServerNetwork, client_channels,
}
use brilliance_network.Renet.Server.Step.{receive_channels, receive_connections}
use brilliance_network.Renet.Server.Events.{IsServerBox}
use brilliance_network.Renet.Server.Receiving.{
  Got, Got-nil, Got-is_open, Got-trans, receive_channel_lem,
}

-- Connections with different cells and clients.
abbrev pub Apart : List (ℕ × RenetServerConnection) → Type 0
Apart [] = Unit {0}
Apart (e ∷ m) = All (λ d. (d.1.cell ≢ e.1.cell) × (d.1.client_id ≢ e.1.client_id)) m × Apart m

DistinctBy-client_channels : DistinctBy client_channel_id client_channels
unfolding client_channel_id
DistinctBy-client_channels =
    let differ : (m n : ℕ) → m + suc n ≢ m = λ m n e. omega (arith, e) in
    (
      (differ 0 0, (differ 0 1, (differ 0 2, tt))),
      ((differ 1 0, (differ 1 1, tt)), ((differ 2 0, tt), (tt, tt))),
    )

module _ (F : Flume) (laws : IsFifo F) {S T M E Err : Type 0} (codec : Codec M E)
    {Duration Reason Addr : Type 0} (api : ServerCrates S T Duration Err Reason Addr)
    (box : IsServerBox api) where
  open box use {inbox, events}

  -- What waits of a client on some channels.
  abbrev pub wait : RenetServerConnection → S → ClientChannel → List (List ℕ)
  wait c s k = inbox s c.client_id (client_channel_id k)

  -- One client's channels with different ids, one after the other.
  receive_channels_lem :
      (c : RenetServerConnection) (ks : List ClientChannel) (n : RenetServerNetwork F S T M Err)
      (fuel : ℕ)
      → DistinctBy client_channel_id ks
      → F.is_open (n.cells c.cell).client_messages ≡ true
      → All (λ k. length (wait c n.server k) < fuel) ks
      → (t : RenetServerNetwork F S T M Err) × (receive_channels F api codec fuel c ks n ≡ ran t)
        × Got F laws codec c (collect (wait c n.server) ks) n t
        × All (λ k. wait c t.server k ≡ []) ks
        × ((l : ℕ)
            → All (λ k. client_channel_id k ≢ l) ks
            → inbox t.server c.client_id l ≡ inbox n.server c.client_id l)
        × ((j l : ℕ) → j ≢ c.client_id → inbox t.server j l ≡ inbox n.server j l)
        × (events t.server ≡ events n.server)
  unfolding receive_channels collect
  receive_channels_lem c [] n fuel d o h =
      (n, refl, Got-nil F laws codec c n o, tt, (λ l x. refl), (λ j l x. refl), refl)
  receive_channels_lem c (k ∷ ks) n fuel d o h =
      let (s, first, v, p) = receive_channel_lem F laws codec api box c k n fuel o h.0 in
      let same : All (λ l. wait c s.server l ≡ wait c n.server l) ks =
        All-weaken _ _ ks (λ l x. p.other_channels (client_channel_id l) x) d.0 in
      let enough = All-length _ _ fuel ks same h.1 in
      let (t, rest, w, empties, channels, clients, told) =
        receive_channels_lem c ks s fuel d.1 v.is_open enough in
      let v' = subst (λ xs. Got F laws codec c xs s t) (collect-ext _ _ ks same) w in
      (
        t,
        rw (first, receive_channels) rest,
        Got-trans F laws codec v v',
        (channels (client_channel_id k) d.0 ∙ p.left, empties),
        (λ l x. channels l x.1 ∙ p.other_channels l (λ e. x.0 (sym e))),
        (λ j l x. clients j l x ∙ p.other_clients j l x),
        told ∙ p.same_events,
      )

  -- The connection's queue has all that waited from its client, and nothing of it waits any more.
  pub record Served (n t : RenetServerNetwork F S T M Err) (e : ℕ × RenetServerConnection)
      : Type 0 where
    pub messages :
        F.pending (t.cells e.1.cell).client_messages
        ≡ F.pending (n.cells e.1.cell).client_messages
          ++ collect (value_of codec) (collect (wait e.1 n.server) client_channels)
    pub is_open : F.is_open (t.cells e.1.cell).client_messages ≡ true
    pub time : (t.cells e.1.cell).disconnect_at ≡ (n.cells e.1.cell).disconnect_at
    pub received : All (λ k. wait e.1 t.server k ≡ []) client_channels

  -- Their queues have receivers, and the fuel is enough for what waits of them.
  abbrev pub Ready : ℕ → RenetServerNetwork F S T M Err → ℕ × RenetServerConnection → Type 0
  Ready fuel n e =
      (F.is_open (n.cells e.1.cell).client_messages ≡ true)
      × All (λ k. length (wait e.1 n.server k) < fuel) client_channels

  -- Another connection's part of the state has not changed.
  record Alike (n s : RenetServerNetwork F S T M Err) (e : ℕ × RenetServerConnection) : Type 0 where
    cell : s.cells e.1.cell ≡ n.cells e.1.cell
    inboxes : (k : ClientChannel) → wait e.1 s.server k ≡ wait e.1 n.server k

  Ready-Alike :
      (fuel : ℕ) (n s : RenetServerNetwork F S T M Err) (e : ℕ × RenetServerConnection)
      → Alike n s e
      → Ready fuel n e
      → Ready fuel s e
  Ready-Alike fuel n s e a r = (
    ap (λ c. F.is_open c.client_messages) a.cell ∙ r.0,
    All-length (wait e.1 s.server) (wait e.1 n.server) fuel client_channels
        (All-every _ client_channels a.inboxes) r.1,
  )

  Served-Alike :
      (n s t : RenetServerNetwork F S T M Err) (e : ℕ × RenetServerConnection)
      → Alike n s e
      → Served s t e
      → Served n t e
  Served-Alike n s t e a v = record {
    messages =
        v.messages
        ∙ ap
            (λ c.
              F.pending c.client_messages
              ++ collect (value_of codec) (collect (wait e.1 s.server) client_channels))
            a.cell
        ∙ ap (λ l. F.pending (n.cells e.1.cell).client_messages ++ collect (value_of codec) l)
            (collect-ext (wait e.1 s.server) (wait e.1 n.server) client_channels
              (All-every _ client_channels a.inboxes));
    is_open = v.is_open;
    time = v.time ∙ ap (λ c. c.disconnect_at) a.cell;
    received = v.received;
  }

  -- All connections, one after the other.
  pub receive_connections_lem :
      (m : List (ℕ × RenetServerConnection)) (n : RenetServerNetwork F S T M Err) (fuel : ℕ)
      → Apart m
      → All (Ready fuel n) m
      → (t : RenetServerNetwork F S T M Err) × (receive_connections F api codec fuel m n ≡ ran t)
        × All (Served n t) m
        × ((i : ℕ) → All (λ e. e.1.cell ≢ i) m → t.cells i ≡ n.cells i)
        × ((j l : ℕ) → All (λ e. e.1.client_id ≢ j) m → inbox t.server j l ≡ inbox n.server j l)
        × (events t.server ≡ events n.server)
        × (t ≡ record n { server = t.server; cells = t.cells })
        × ((i : ℕ)
            → F.is_open (n.cells i).client_messages ≡ true
            → F.is_open (t.cells i).client_messages ≡ true)
  unfolding receive_connections
  receive_connections_lem [] n fuel d h =
      (n, refl, tt, (λ i x. refl), (λ j l x. refl), refl, refl, λ i o. o)
  receive_connections_lem ((key, c) ∷ m) n fuel d h =
      let (s, first, v, empty, channels, clients, told) =
        receive_channels_lem c client_channels n fuel DistinctBy-client_channels h.0.0 h.0.1 in
      let alike : All (Alike n s) m =
        All-weaken _ _ m
          (λ e x. record {
            cell = v.others e.1.cell x.0;
            inboxes = λ k. clients e.1.client_id (client_channel_id k) x.1;
          })
          d.0 in
      let (t, rest, w, cells, clients', told', same, opens) =
        receive_connections_lem m s fuel d.1 (All-both _ _ _ m (Ready-Alike fuel n s) alike h.1) in
      let mine : t.cells c.cell ≡ s.cells c.cell =
        cells c.cell (All-weaken _ _ m (λ e x. x.0) d.0) in
      let now : RenetServerNetwork F S T M Err → RenetServerNetwork F S T M Err =
        λ q. record q { server = t.server; cells = t.cells } in
      (
        t,
        rw (first, receive_connections) rest,
        (
          record {
            messages = ap (λ q. F.pending q.client_messages) mine ∙ v.messages;
            is_open = ap (λ q. F.is_open q.client_messages) mine ∙ v.is_open;
            time = ap (λ q. q.disconnect_at) mine ∙ v.time;
            received =
                All-weaken (λ k. wait c s.server k ≡ []) (λ k. wait c t.server k ≡ [])
                  client_channels
                  (λ k x.
                    clients' c.client_id (client_channel_id k) (All-weaken _ _ m (λ e y. y.1) d.0)
                    ∙ x)
                  empty;
          },
          All-both _ _ _ m (Served-Alike n s t) alike w,
        ),
        (λ i x. cells i x.1 ∙ v.others i (λ e. x.0 (sym e))),
        (λ j l x. clients' j l x.1 ∙ clients j l (λ e. x.0 (sym e))),
        told' ∙ told,
        same ∙ ap now v.same,
        λ i o. opens i (Got-is_open F laws codec v i o),
      )
