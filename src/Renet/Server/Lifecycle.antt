-- ===== src/Renet/Server/Lifecycle.antt =====
-- Whole steps of the UDP server.
use mathlib.Core.List.{append-nil}
use brilliance_network.Prelude.{
  ℕ, ◌+◌, ◌<◌, ◌≡◌, refl, sym, ◌∙◌, ap, subst, true, none, some, List, [], ◌∷◌, ◌++◌, length, All,
  All-both, All-weaken, collect, inl, inr, Bool-cases, ltb, arith,
}
use brilliance_network.Channel.{Flume, IsFifo, Codec, value_of}
use brilliance_network.Server.{ConnectionMessages}
use brilliance_network.Renet.Run.{ran}
use brilliance_network.Renet.Server.{
  Cell, ServerCrates, RenetServerConnection, RenetServerNetwork, client_channels,
}
use brilliance_network.Renet.Server.Step.{retain, exchange, step}
use brilliance_network.Renet.Server.Events.{
  IsServerBox, replay, announced, connects, HasAddr, Coming, events_lem,
}
use brilliance_network.Renet.Server.Delivery.{wait, Served, Ready, receive_connections_lem}
use brilliance_network.Renet.Server.Retain.{stays, ends, disconnect_all, retain_lem}
use brilliance_network.Renet.Server.Invariant.{IsValid, IsTable, IsTable-replay, IsTable-stays}

module _ (F : Flume) (laws : IsFifo F) {S T M E Err : Type 0} (codec : Codec M E)
    {Duration Reason Addr : Type 0} (api : ServerCrates S T Duration Err Reason Addr)
    (box : IsServerBox api) (now : RenetServerConnection → ℕ × ℕ) where
  open box use {events}

  -- What the server tells in this step.
  abbrev pub news : RenetServerNetwork F S T M Err → List (ConnectionMessages RenetServerConnection)
  news n = announced api n.transport n.next_cell (events n.server)

  -- The messages that waited stand in the queue of this connection.
  abbrev pub Delivered :
      RenetServerNetwork F S T M Err
      → RenetServerNetwork F S T M Err
      → ℕ × RenetServerConnection
      → Type 0
  Delivered n t e =
      F.pending (t.cells e.1.cell).client_messages
      ≡ F.pending (n.cells e.1.cell).client_messages
        ++ collect (value_of codec)
            (collect (wait F laws codec api box e.1 n.server) client_channels)

  pub record Exchanged (n t : RenetServerNetwork F S T M Err) : Type 0 where
    pub delivered : All (Delivered n t) n.connections
    pub told : F.pending t.channel_connections ≡ F.pending n.channel_connections ++ news n
    pub table : t.connections ≡ collect (stays now t.cells) (replay (news n) n.connections)
    -- The state of the crate in which the packets went out, when all events had been handled.
    pub last : S
    pub handled : events last ≡ []
    pub ended :
        t.server
        ≡ disconnect_all api
            (collect (ends now t.cells) (replay (news n) n.connections))
            (api.send_packets n.transport last).1
    pub valid : IsValid F t

  -- All of it from its parts: the messages, the events, and what `retain` has kept and ended.
  Exchanged-of_parts :
      (n p : RenetServerNetwork F S T M Err) (received : S) (cells : ℕ → Cell F M)
      (kept : List (ℕ × RenetServerConnection)) (server : S)
      → let q : RenetServerNetwork F S T M Err = record n { server = received; cells = cells } in
        let packets = api.send_packets p.transport p.server in
        IsValid F n
        → All (HasAddr api n.transport) (events n.server)
        → events received ≡ events n.server
        → ((i : ℕ)
            → F.is_open (n.cells i).client_messages ≡ true
            → F.is_open (cells i).client_messages ≡ true)
        → All (Served F laws codec api box n q) n.connections
        → Coming api F laws box q [] p
        → kept ≡ collect (stays now p.cells) p.connections
        → server ≡ disconnect_all api (collect (ends now p.cells) p.connections) packets.1
        → Exchanged n (record p { server = server; transport = packets.0; connections = kept })
  unfolding announced replay
  Exchanged-of_parts n p received cells kept server v known same opens served c stay ended =
      let es : announced api n.transport n.next_cell (events received) ≡ news n =
        ap (announced api n.transport n.next_cell) same in
      let table : p.connections ≡ replay (news n) n.connections =
        c.table ∙ ap (λ ms. replay ms n.connections) es in
      let bound : p.next_cell ≡ n.next_cell + connects (events n.server) =
        omega (arith, c.counted, ap connects same) in
      let sound : IsTable p.next_cell p.connections =
        subst (λ m. IsTable p.next_cell m) (sym table)
          (subst (λ b. IsTable b (replay (news n) n.connections)) (sym bound)
            (IsTable-replay api n.transport (events n.server) n.next_cell n.connections known
              v.table)) in
      record {
        delivered =
            All-both _ _ _ n.connections
              (λ e x y. ap (λ k. F.pending k.client_messages) (c.cells e.1.cell x.1) ∙ y.messages)
              v.table.0 served;
        told =
            sym (append-nil (F.pending p.channel_connections))
            ∙ c.told
            ∙ ap (λ ms. F.pending n.channel_connections ++ ms) es;
        table = stay ∙ ap (collect (stays now p.cells)) table;
        last = p.server;
        handled = c.left;
        ended =
            ended
            ∙ ap
                (λ m.
                  disconnect_all api (collect (ends now p.cells) m)
                    (api.send_packets p.transport p.server).1)
                table
            ∙ ap
                (λ t.
                  disconnect_all api (collect (ends now p.cells) (replay (news n) n.connections))
                    (api.send_packets t p.server).1)
                c.same;
        valid = record {
          table =
              subst (λ m. IsTable p.next_cell m) (sym stay)
                (IsTable-stays now p.cells p.next_cell p.connections sound);
          heard = λ i h. elim (Bool-cases (ltb i n.next_cell)) [
            | inl old ↦
                let b : i < n.next_cell = ground arith in
                ap (λ k. F.is_open k.client_messages) (c.cells i b) ∙ opens i (v.heard i b)
            | inr new ↦
                ap (λ k. F.is_open k.client_messages) (c.fresh i (ground arith) h)
                ∙ laws.unbounded-is_open
          ];
          told = c.is_open;
          faults = ap F.is_open c.errors ∙ v.faults;
        };
      }

  pub exchange_lem :
      (n : RenetServerNetwork F S T M Err) (fuel : ℕ)
      → IsValid F n
      → All (HasAddr api n.transport) (events n.server)
      → length (events n.server) < fuel
      → All
          (λ e. All (λ k. length (wait F laws codec api box e.1 n.server k) < fuel) client_channels)
          n.connections
      → (t : RenetServerNetwork F S T M Err) × (exchange F api codec now fuel n ≡ ran t)
        × Exchanged n t
  unfolding exchange
  exchange_lem n fuel v known few h =
      let ready : All (Ready F laws codec api box fuel n) n.connections =
        All-both _ _ _ n.connections (λ e x y. (v.heard e.1.cell x.1, y)) v.table.0 h in
      let (m, received, served, _, _, same_events, same, opens) =
        receive_connections_lem F laws codec api box n.connections n fuel v.table.1 ready in
      let q : RenetServerNetwork F S T M Err = record n { server = m.server; cells = m.cells } in
      let served' : All (Served F laws codec api box n q) n.connections =
        All-weaken _ _ n.connections
          (λ e x. record {
            messages = x.messages;
            is_open = x.is_open;
            time = x.time;
            received = x.received;
          })
          served in
      let (p, told, c) =
        events_lem api F laws box q fuel v.told
          (subst (λ es. All (HasAddr api n.transport) es) (sym same_events) known)
          (subst (λ es. length es < fuel) (sym same_events) few) in
      let packets = api.send_packets p.transport p.server in
      let sent : RenetServerNetwork F S T M Err = record p {
        transport = packets.0;
        server = packets.1;
      } in
      let (kept, ended) = retain_lem api F now p.connections sent in
      let t : RenetServerNetwork F S T M Err = record sent {
        connections = (retain F api now p.connections sent).0;
        server = (retain F api now p.connections sent).1;
      } in
      (
        t,
        rw (received ∙ ap ran same, told) refl,
        Exchanged-of_parts n p m.server m.cells _ _ v known same_events opens served' c kept ended,
      )

  -- A step from a sound table with receivers, where the transport could be updated and knows the
  -- address of each client that has connected since, with more fuel than there are events and than
  -- messages wait on any channel of a connection. No `unwrap` panics and the step ends. Each connection
  -- that was in the table has in its queue what waited from its client, channel after channel, as far
  -- as it decodes. The server has told of each event in its order, and the table is the one that a
  -- reader of this makes of the old table, less the connections that are due when `retain` reads the
  -- clock for the second time. The clients of those that are due the first time are disconnected, after
  -- the packets went out. The table is sound again.
  pub step_told :
      (n : RenetServerNetwork F S T M Err) (fuel : ℕ) (delta : Duration) (transport : T)
      (server : S)
      → IsValid F n
      → api.transport_update delta n.transport (api.update delta n.server)
        ≡ (none, transport, server)
      → All (HasAddr api transport) (events server)
      → length (events server) < fuel
      → All
          (λ e. All (λ k. length (wait F laws codec api box e.1 server k) < fuel) client_channels)
          n.connections
      → (t : RenetServerNetwork F S T M Err) × (step F api codec now fuel delta n ≡ ran t)
        × Exchanged (record n { transport = transport; server = server }) t
  unfolding step
  step_told n fuel delta transport server v e known few h =
      let u : RenetServerNetwork F S T M Err = record n {
        transport = transport;
        server = server;
      } in
      let v' : IsValid F u = record {
        table = v.table;
        heard = v.heard;
        told = v.told;
        faults = v.faults;
      } in
      let (t, ran', x) = exchange_lem u fuel v' known few h in
      (t, rw (ap (λ x. x.0) e, ap (λ x. x.1) e, ap (λ x. x.2) e, step) ran', x)

  -- A step where the transport could not be updated: the error stands last in its queue, and apart from
  -- the crates nothing else has changed.
  pub step_failed :
      (n : RenetServerNetwork F S T M Err) (fuel : ℕ) (delta : Duration) (x : Err) (transport : T)
      (server : S)
      → IsValid F n
      → api.transport_update delta n.transport (api.update delta n.server)
        ≡ (some x, transport, server)
      → (errors : F.Channel Err) × (step F api codec now fuel delta n
          ≡ ran (record n { transport = transport; server = server; channel_errors = errors }))
        × (F.pending errors ≡ F.pending n.channel_errors ++ x ∷ [])
        × (F.is_open errors ≡ true)
  unfolding step
  step_failed n fuel delta x transport server v e =
      let (errors, sent, queued, o) = laws.send-open x n.channel_errors v.faults in
      (errors, rw (ap (λ x. x.0) e, ap (λ x. x.1) e, ap (λ x. x.2) e, sent, step) refl, queued, o)
