-- ===== src/Renet/Client/Delivery.antt =====
-- A step of the UDP client.
use brilliance_network.Prelude.{
  ℕ, suc, ◌+◌, ◌≢◌, ◌<◌, ◌≡◌, refl, sym, ◌∙◌, ap, true, false, Option, none, some, List, [], ◌∷◌,
  ◌++◌, length, All, collect, DistinctBy, arith,
}
use Prim.Native.String.{String}
use mathlib.Core.List.{append-nil, foldl}
use brilliance_network.Float.{Float}
use brilliance_network.Channel.{Flume, IsFifo, Codec, value_of}
use brilliance_network.Tokio.Client.{DebugInfo}
use brilliance_network.Renet.Channels.{server_channel_id}
use brilliance_network.Renet.Run.{ran}
use brilliance_network.Renet.Client.{
  ClientCrates, RenetClientNetwork, ErrorText, transport_failed, server_channels, send_all,
  send_network_error, report, debug_of, exchange, step,
}
use brilliance_network.Renet.Client.Receiving.{IsInbox, waiting, fault_of}
use brilliance_network.Renet.Client.Channels.{receive_all_lem}

DistinctBy-server_channels : DistinctBy server_channel_id server_channels
unfolding server_channel_id
DistinctBy-server_channels =
    let differ : (m n : ℕ) → m + suc n ≢ m = λ m n e. omega (arith, e) in
    (
      (differ 0 0, (differ 0 1, (differ 0 2, tt))),
      ((differ 1 0, (differ 1 1, tt)), ((differ 2 0, tt), (tt, tt))),
    )

-- All that waits on the channels of the server, channel after channel.
abbrev pub incoming :
    {C T R Duration Err Reason : Type 0} {api : ClientCrates C T R Duration Err Reason}
    → IsInbox api
    → C
    → List (List ℕ)
incoming box c = collect (waiting box c) server_channels

-- The crate after a call of its `send_message` for each of some messages, one after the other, each on
-- its channel.
abbrev pub handed :
    {C T R Duration Err Reason : Type 0}
    → ClientCrates C T R Duration Err Reason
    → List (ℕ × List ℕ)
    → C
    → C
handed api ms c = foldl (λ d m. api.send_message m.0 m.1 d) c ms

send_all-handed :
    {C T R Duration Err Reason : Type 0} (api : ClientCrates C T R Duration Err Reason)
    (ms : List (ℕ × List ℕ)) (c : C)
    → send_all api ms c ≡ handed api ms c
unfolding send_all
send_all-handed api [] c = refl
send_all-handed api ((k, m) ∷ ms) c = send_all-handed api ms (api.send_message k m c)

-- The text of a failed call, where it failed.
abbrev pub failure : {E Err : Type 0} → Option Err → List (ErrorText E Err)
failure none = []
failure (some e) = transport_failed e ∷ []

module _ (F : Flume) (laws : IsFifo F) {C T M E Err D : Type 0} where
  pub record IsOpen (n : RenetClientNetwork F C T M E Err D) : Type 0 where
    pub messages : F.is_open n.network_decoder_out ≡ true
    pub errors : F.is_open n.network_errors_out ≡ true

  report_lem :
      (failed : Option Err) (n : RenetClientNetwork F C T M E Err D)
      → F.is_open n.network_errors_out ≡ true
      → (errors : F.Channel (ErrorText E Err)) × (report F failed n
          ≡ ran (record n { network_errors_out = errors }))
        × (F.pending errors ≡ F.pending n.network_errors_out ++ failure failed)
        × (F.is_open errors ≡ true)
  unfolding report send_network_error
  report_lem none n o =
      (n.network_errors_out, refl, sym (append-nil (F.pending n.network_errors_out)), o)
  report_lem (some e) n o =
      let (errors, sent, queued, o') = laws.send-open (transport_failed e) n.network_errors_out o in
      (errors, rw (sent, send_network_error) refl, queued, o')

  module _ (codec : Codec M E) {R Duration Reason : Type 0}
      (api : ClientCrates C T R Duration Err Reason) (box : IsInbox api) where
    -- The queue of outgoing messages went to the crate before anything was received, `failed` is what
    -- became of it, and all that waited then in the crate was received.
    pub record Exchanged (failed : Option Err) (transport : T) (client : C)
        (n t : RenetClientNetwork F C T M E Err D) : Type 0 where
      pub messages :
          F.pending t.network_decoder_out
          ≡ F.pending n.network_decoder_out ++ collect (value_of codec) (incoming box client)
      pub errors :
          F.pending t.network_errors_out
          ≡ F.pending n.network_errors_out
            ++ failure failed
            ++ collect (fault_of codec) (incoming box client)
      pub received : All (λ k. waiting box t.client k ≡ []) server_channels
      pub outgoing : F.pending t.network_client_sended ≡ []
      pub same : t.transport ≡ transport
      pub open_still : IsOpen t

    pub exchange_lem :
        (n : RenetClientNetwork F C T M E Err D) (fuel : ℕ) (failed : Option Err) (transport : T)
        (client : C)
        → IsOpen n
        → api.send_packets n.transport (send_all api (F.pending n.network_client_sended) n.client)
          ≡ (failed, transport, client)
        → All (λ k. length (waiting box client k) < fuel) server_channels
        → (t : RenetClientNetwork F C T M E Err D) × (exchange F api codec fuel n ≡ ran (t, true))
          × Exchanged failed transport client n t
    unfolding exchange
    exchange_lem n fuel failed transport client o e h =
        let left = (F.drain n.network_client_sended).1 in
        let begun : RenetClientNetwork F C T M E Err D = record n {
          client = client;
          transport = transport;
          network_client_sended = left;
        } in
        let (errors, told, queued, o') = report_lem failed begun o.errors in
        let (t, ends, v, empty, _) =
          receive_all_lem F laws codec api box server_channels
            (record begun { network_errors_out = errors }) fuel DistinctBy-server_channels
            o.messages o' h in
        (
          t,
          rw (laws.drain-pending n.network_client_sended, e, exchange, told, ends) refl,
          record {
            messages = v.messages;
            errors =
                v.errors ∙ ap (λ l. l ++ collect (fault_of codec) (incoming box client)) queued;
            received = empty;
            outgoing = ap F.pending v.outgoing ∙ laws.drain-empty n.network_client_sended;
            same = v.transport;
            open_still = record { messages = v.messages_open; errors = v.errors_open };
          },
        )

    module _ ⦃f : Float R⦄ (info : DebugInfo D) (insert_f64 : D → String → R → D)
        (from_secs_f64 : R → Option ℕ) where
      -- A step of a client that is connected, whose queues have receivers and whose round trip is a
      -- time, with more fuel than messages wait on any channel, where the transport could be updated.
      -- The packets are sent once the crate's `send_message` has been called for each message of the
      -- queue for the server, in its order and on its channel. Then what waits in the crate is received,
      -- channel after channel: what decodes stands in the queue of messages, and an error for each other
      -- message in the queue of errors, behind that of the packets where they could not be sent. No
      -- message waits any more, the queue for the server is empty, and the result is `true`.
      pub step_exchange :
          (n : RenetClientNetwork F C T M E Err D) (fuel : ℕ) (delta : Duration) (rtt : ℕ)
          (transport : T) (client : C) (failed : Option Err) (transport' : T) (client' : C)
          → IsOpen n
          → api.is_disconnected n.client ≡ false
          → from_secs_f64 (api.rtt n.client) ≡ some rtt
          → api.transport_update delta n.transport (api.update delta n.client)
            ≡ (none, transport, client)
          → api.send_packets transport (handed api (F.pending n.network_client_sended) client)
            ≡ (failed, transport', client')
          → All (λ k. length (waiting box client' k) < fuel) server_channels
          → (t : RenetClientNetwork F C T M E Err D) × (step F api codec info insert_f64
                from_secs_f64 fuel delta n
              ≡ ran (t, true))
            × Exchanged failed transport' client' n t
      unfolding step
      step_exchange n fuel delta rtt transport client failed transport' client' o up time updated
            sent h =
          let ready : RenetClientNetwork F C T M E Err D = record n {
            debug_info = debug_of api info insert_f64 rtt n.client;
            client = client;
            transport = transport;
          } in
          let (t, ends, v) =
            exchange_lem ready fuel failed transport' client'
              (record { messages = o.messages; errors = o.errors })
              (ap (api.send_packets transport)
                  (send_all-handed api (F.pending n.network_client_sended) client)
                ∙ sent)
              h in
          (
            t,
            rw (up, time, ap (λ x. x.0) updated, ap (λ x. x.1) updated, ap (λ x. x.2) updated, step)
                ends,
            record {
              messages = v.messages;
              errors = v.errors;
              received = v.received;
              outgoing = v.outgoing;
              same = v.same;
              open_still = v.open_still;
            },
          )
