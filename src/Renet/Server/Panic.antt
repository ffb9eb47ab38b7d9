-- ===== src/Renet/Server/Panic.antt =====
-- Where a step of the UDP server panics.
use brilliance_network.Prelude.{
  ℕ, suc, ◌<◌, ◌≡◌, refl, ◌∙◌, ap, none, List, ◌∷◌, length, All, All-both,
}
use brilliance_network.Channel.{Flume, IsFifo, Codec}
use brilliance_network.Renet.Run.{ran, panicked, while_some}
use brilliance_network.Renet.Server.{
  ServerCrates, ServerEvent, client_connected, RenetServerConnection, RenetServerNetwork,
  client_channels,
}
use brilliance_network.Renet.Server.Step.{next_event, on_event, exchange, step}
use brilliance_network.Renet.Server.Events.{IsServerBox}
use brilliance_network.Renet.Server.Delivery.{wait, Ready, receive_connections_lem}
use brilliance_network.Renet.Server.Invariant.{IsValid}

module _ (F : Flume) (laws : IsFifo F) {S T M E Err : Type 0} (codec : Codec M E)
    {Duration Reason Addr : Type 0} (api : ServerCrates S T Duration Err Reason Addr)
    (box : IsServerBox api) (now : RenetServerConnection → ℕ × ℕ) where
  open box use {events}

  events_panic :
      (n : RenetServerNetwork F S T M Err) (fuel id : ℕ) (es : List (ServerEvent Reason))
      → events n.server ≡ client_connected id ∷ es
      → api.client_addr id n.transport ≡ none
      → while_some (next_event F api) (on_event F api) (suc fuel) n ≡ panicked
  unfolding while_some next_event on_event
  events_panic n fuel id es e unknown =
      let (s, got, _, _) = box.get_event-cons n.server (client_connected id) es e in
      rw (got, while_some, next_event, unknown, on_event) refl

  -- A step from a sound table with receivers, where the transport could be updated, the first event
  -- says that a client has connected, and the transport gives no address for this client: `step`
  -- panics.
  pub step-panicked :
      (n : RenetServerNetwork F S T M Err) (fuel : ℕ) (delta : Duration) (transport : T)
      (server : S) (id : ℕ) (es : List (ServerEvent Reason))
      → IsValid F n
      → api.transport_update delta n.transport (api.update delta n.server)
        ≡ (none, transport, server)
      → events server ≡ client_connected id ∷ es
      → api.client_addr id transport ≡ none
      → All
          (λ e.
            All (λ k. length (wait F laws codec api box e.1 server k) < suc fuel) client_channels)
          n.connections
      → step F api codec now (suc fuel) delta n ≡ panicked
  unfolding step exchange
  step-panicked n fuel delta transport server id es v e first unknown h =
      let u : RenetServerNetwork F S T M Err = record n {
        transport = transport;
        server = server;
      } in
      let ready : All (Ready F laws codec api box (suc fuel) u) u.connections =
        All-both _ _ _ n.connections (λ e x y. (v.heard e.1.cell x.1, y)) v.table.0 h in
      let (m, received, _, _, _, same_events, same, _) =
        receive_connections_lem F laws codec api box u.connections u (suc fuel) v.table.1 ready in
      let panics =
        events_panic (record u { server = m.server; cells = m.cells }) fuel id es
          (same_events ∙ first) unknown in
      rw
        (
          ap (λ x. x.0) e,
          ap (λ x. x.1) e,
          ap (λ x. x.2) e,
          received ∙ ap ran same,
          step,
          exchange,
          panics,
        )
        refl
