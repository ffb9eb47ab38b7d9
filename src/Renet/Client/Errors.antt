-- ===== src/Renet/Client/Errors.antt =====
-- Every way in which a step of the UDP client ends.
use Prim.Native.String.{String}
use brilliance_network.Prelude.{
  ℕ, ◌<◌, ◌≡◌, refl, sym, ◌∙◌, ap, inl, inr, Bool, true, false, not, ◌&&◌, Option, none, some, [],
  ◌∷◌, ◌++◌, length, All, if◌then◌else◌, Bool-cases, Option-cases,
}
use brilliance_network.Float.{Float}
use brilliance_network.Channel.{Flume, IsFifo, Codec}
use brilliance_network.Tokio.Client.{DebugInfo}
use brilliance_network.Renet.Run.{ran}
use brilliance_network.Renet.Client.{
  ClientCrates, RenetClientNetwork, ErrorText, transport_failed, server_channels,
  send_network_error, debug_of, step,
}
use brilliance_network.Renet.Client.Receiving.{IsInbox, waiting}
use brilliance_network.Renet.Client.Delivery.{handed, IsOpen, step_exchange}

abbrev pub is_none : {A : Type 0} → Option A → Bool
is_none none = true
is_none (some a) = false

module _ (F : Flume) (laws : IsFifo F) {C T M E Err D : Type 0} (codec : Codec M E)
    {R Duration Reason : Type 0} (api : ClientCrates C T R Duration Err Reason) (box : IsInbox api)
    ⦃f : Float R⦄ (info : DebugInfo D) (insert_f64 : D → String → R → D)
    (from_secs_f64 : R → Option ℕ) where
  -- A step of a client that is connected, whose queues have receivers and whose round trip is a time,
  -- where the update of the transport fails: the result is `false`, the error stands last in the
  -- queue of errors, and apart from the panel and the state of the crates nothing has changed. What was
  -- queued for the server is queued still.
  pub step_failed :
      (n : RenetClientNetwork F C T M E Err D) (fuel : ℕ) (delta : Duration) (rtt : ℕ) (e : Err)
      (transport : T) (client : C)
      → IsOpen F laws n
      → api.is_disconnected n.client ≡ false
      → from_secs_f64 (api.rtt n.client) ≡ some rtt
      → api.transport_update delta n.transport (api.update delta n.client)
        ≡ (some e, transport, client)
      → (errors : F.Channel (ErrorText E Err)) × (step F api codec info insert_f64 from_secs_f64
            fuel delta n
          ≡ ran (
            record n {
              client = client;
              transport = transport;
              debug_info = debug_of api info insert_f64 rtt n.client;
              network_errors_out = errors;
            },
            false,
          ))
        × (F.pending errors ≡ F.pending n.network_errors_out ++ transport_failed e ∷ [])
        × (F.is_open errors ≡ true)
  unfolding step send_network_error
  step_failed n fuel delta rtt e transport client o up time updated =
      let (errors, sent, queued, o') =
        laws.send-open (transport_failed e) n.network_errors_out o.errors in
      (
        errors,
        rw
            (
              up,
              time,
              ap (λ x. x.0) updated,
              ap (λ x. x.1) updated,
              ap (λ x. x.2) updated,
              sent,
              step,
              send_network_error,
            )
            refl,
        queued,
        o',
      )

  -- The state of the crate from which a step receives.
  abbrev pub before_receiving : Duration → RenetClientNetwork F C T M E Err D → C
  before_receiving delta n =
      let (failed, transport, client) =
        api.transport_update delta n.transport (api.update delta n.client) in
      (api.send_packets transport (handed api (F.pending n.network_client_sended) client)).2

  -- A step of a client whose queues have receivers and whose round trip is a time, with more fuel than
  -- messages wait on any channel after the packets went out, ends, and the queues have receivers
  -- still. It says `true` where the client is connected and the transport could be updated, and
  -- `false` in all other cases. In the first case alone is the queue for the server emptied, and
  -- otherwise it is as it was.
  pub step_ends :
      (n : RenetClientNetwork F C T M E Err D) (fuel : ℕ) (delta : Duration) (rtt : ℕ)
      → IsOpen F laws n
      → from_secs_f64 (api.rtt n.client) ≡ some rtt
      → All (λ k. length (waiting box (before_receiving delta n) k) < fuel) server_channels
      → let failed = (api.transport_update delta n.transport (api.update delta n.client)).0 in
        let goes = not (api.is_disconnected n.client) && is_none failed in
        (t : RenetClientNetwork F C T M E Err D) × (step F api codec info insert_f64 from_secs_f64
            fuel delta n
          ≡ ran (t, goes))
        × IsOpen F laws t
        × (F.pending t.network_client_sended
            ≡ (if goes then [] else F.pending n.network_client_sended))
  step_ends n fuel delta rtt o time h = elim (Bool-cases (api.is_disconnected n.client)) [
    | inl down ↦ (n, unfold step in rw (down, step) refl, o, rw down refl)
    | inr up ↦
        let u = api.transport_update delta n.transport (api.update delta n.client) in
        elim (Option-cases u.0) [
          | inl e ↦
              let (t, ends, v) =
                step_exchange F laws codec api box info insert_f64 from_secs_f64 n fuel delta rtt
                  u.1 u.2 _ _ _ o up time (ap (λ x. (x, u.1, u.2)) e) refl h in
              let goes : not (api.is_disconnected n.client) && is_none u.0 ≡ true =
                rw (up, e) refl in
              (t, ends ∙ ap (λ b. ran (t, b)) (sym goes), v.open_still, rw goes v.outgoing)
          | inr (x, e) ↦
              let (errors, ends, queued, o') =
                step_failed n fuel delta rtt x u.1 u.2 o up time (ap (λ y. (y, u.1, u.2)) e) in
              let stops : not (api.is_disconnected n.client) && is_none u.0 ≡ false =
                rw (up, e) refl in
              let t : RenetClientNetwork F C T M E Err D = record n {
                client = u.2;
                transport = u.1;
                debug_info = debug_of api info insert_f64 rtt n.client;
                network_errors_out = errors;
              } in
              (
                t,
                ends ∙ ap (λ b. ran (t, b)) (sym stops),
                record { messages = o.messages; errors = o' },
                rw stops refl,
              )
        ]
  ]
