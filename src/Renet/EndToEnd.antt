-- ===== src/Renet/EndToEnd.antt =====
-- Messages on their way from the UDP server to a client.
use Prim.Native.String.{String}
use mathlib.Core.List.{append-nil, append_assoc, Perm, cons≢nil}
use mathlib.Core.List.Perm
use brilliance_network.Prelude.{
  ℕ, ◌<◌, ◌≡◌, ◌≢◌, refl, sym, ◌∙◌, ap, subst, inl, inr, true, false, Option, none, some, List, [],
  ◌∷◌, ◌++◌, ◌==◌, Bool, get_elem?, collect-append, collect-Perm, if◌then◌else◌, length, All,
  All-every, collect, collect-ext, collect-collect, collect-none, Bool-cases, ==_iff, arith,
}
use brilliance_network.Float.{Float}
use brilliance_network.Channel.{Flume, IsFifo, Codec, IsRoundTrip, value_of}
use brilliance_network.Messages.{NetworkMessageType}
use brilliance_network.Tokio.Client.{DebugInfo}
use brilliance_network.Renet.Channels.{
  SendType, ServerChannel, get_server_channels_config, server_channel_id, map_type_channel,
}
use brilliance_network.Renet.Run.{ran}
use brilliance_network.Renet.Client.{ClientCrates, RenetClientNetwork, server_channels, step}
use brilliance_network.Renet.Client.Receiving.{IsInbox, waiting, fault_of}
use brilliance_network.Renet.Client.Delivery.{IsOpen, handed, failure, incoming, step_exchange}
use brilliance_network.Renet.Server.{
  ServerCrates, RenetServerConnection, RenetServerNetwork, send_message,
}

-- What the crate has taken from the server for a client and not let go yet, on each channel, oldest
-- first. It takes a message that the client is connected for and the channel has room for.
pub record IsOutbox {S T Duration Err Reason Addr : Type 0}
    (api : ServerCrates S T Duration Err Reason Addr) : Type 0 where
  pub outbox : S → ℕ → ℕ → List (List ℕ)
  pub takes : S → ℕ → ℕ → List ℕ → Bool
  pub send_message-same :
      (i k : ℕ) (m : List ℕ) (s : S)
      → takes s i k m ≡ true
      → outbox (api.send_message i k m s) i k ≡ outbox s i k ++ m ∷ []
  pub send_message-other :
      (i k : ℕ) (m : List ℕ) (s : S) (l : ℕ)
      → takes s i k m ≡ true
      → l ≢ k
      → outbox (api.send_message i k m s) i l ≡ outbox s i l

-- What has come of the messages that were sent on a channel, by the way in which the crate sends them:
-- all in their order, all in some order, or some of them in some order.
module _ {Duration A : Type 0} where
  abbrev pub Comes : SendType Duration → (got sent : List A) → Type 0
  Comes (SendType.reliable_ordered t) got sent = got ≡ sent
  Comes (SendType.reliable_unordered t) got sent = Perm got sent
  Comes SendType.unreliable got sent = (lost : List A) × Perm (got ++ lost) sent

-- The way in which the server is set up to send on a channel.
unfoldable pub way_of : {Duration : Type 0} → Duration → ServerChannel → SendType Duration
way_of half_second k =
    elim (get_elem? (get_server_channels_config half_second) (server_channel_id k)) [
      | none ↦ SendType.unreliable
      | some config ↦ config.send_type
    ]

module _ {Duration A B : Type 0} where
  Comes-collect :
      (f : A → List B) (way : SendType Duration) (got sent : List A)
      → Comes way got sent
      → Comes way (collect f got) (collect f sent)
  Comes-collect f (SendType.reliable_ordered t) got sent h = ap (collect f) h
  Comes-collect f (SendType.reliable_unordered t) got sent h = collect-Perm f h
  Comes-collect f SendType.unreliable got sent (lost, h) = (
    collect f lost,
    subst (λ l. Perm l (collect f sent)) (collect-append f got lost) (collect-Perm f h),
  )

module _ {Duration A : Type 0} where
  -- Nothing comes of nothing.
  Comes-none : (way : SendType Duration) (got : List A) → Comes way got [] → got ≡ []
  Comes-none (SendType.reliable_ordered t) got h = h
  Comes-none (SendType.reliable_unordered t) got h = Perm.eq-nil h
  Comes-none SendType.unreliable got (lost, h) = front got lost (Perm.eq-nil h)
    where
      front : (xs ys : List A) → xs ++ ys ≡ [] → xs ≡ []
      front [] ys e = refl
      front (x ∷ xs) ys e = absurd (cons≢nil e)

-- The messages of those types that a channel carries.
module _ {M : Type 0} where
  abbrev pub on_channel : ServerChannel → NetworkMessageType × M → List M
  on_channel k (type, m) =
      if server_channel_id k == server_channel_id (map_type_channel type) then m ∷ [] else []

  abbrev pub carried : List (NetworkMessageType × M) → ServerChannel → List M
  carried ms k = collect (on_channel k) ms

module _ {M E : Type 0} (codec : Codec M E) where
  abbrev pub bytes : List M → List (List ℕ)
  bytes = collect (λ m. codec.serialize m ∷ [])

  module _ (rt : IsRoundTrip codec) where
    decode_all : (ms : List M) → collect (value_of codec) (bytes ms) ≡ ms
    unfolding collect value_of
    decode_all [] = refl
    decode_all (m ∷ ms) = rw (rt.deserialize-serialize m, value_of, decode_all ms) refl

    no_faults : {Err : Type 0} (ms : List M) → collect (fault_of codec {Err = Err}) (bytes ms) ≡ []
    unfolding collect fault_of
    no_faults [] = refl
    no_faults (m ∷ ms) = rw (rt.deserialize-serialize m, fault_of) (no_faults ms)

-- `send_message` for each of some messages.
unfoldable pub send_messages :
    (F : Flume) {S T M Err M' E Duration Reason Addr : Type 0}
    → ServerCrates S T Duration Err Reason Addr
    → Codec M' E
    → RenetServerConnection
    → List (NetworkMessageType × M')
    → RenetServerNetwork F S T M Err
    → RenetServerNetwork F S T M Err
send_messages F api codec c [] n = n
send_messages F api codec c ((type, m) ∷ ms) n =
    send_messages F api codec c ms (send_message F api codec type m c n)

-- The crate takes each of these messages when it is sent.
unfoldable pub Taken :
    (F : Flume) {S T M Err M' E Duration Reason Addr : Type 0}
    {api : ServerCrates S T Duration Err Reason Addr}
    → IsOutbox api
    → Codec M' E
    → RenetServerConnection
    → List (NetworkMessageType × M')
    → RenetServerNetwork F S T M Err
    → Type 0
Taken F out codec c [] n = Unit {0}
Taken F {api = api} out codec c ((type, m) ∷ ms) n =
    (out.takes n.server c.client_id (server_channel_id (map_type_channel type)) (codec.serialize m)
      ≡ true)
    × Taken F out codec c ms (send_message F api codec type m c n)

outbox-send_messages :
    (F : Flume) {S T M Err M' E Duration Reason Addr : Type 0}
    (api : ServerCrates S T Duration Err Reason Addr) (out : IsOutbox api) (codec : Codec M' E)
    (c : RenetServerConnection) (k : ServerChannel) (ms : List (NetworkMessageType × M'))
    (n : RenetServerNetwork F S T M Err)
    → Taken F out codec c ms n
    → out.outbox (send_messages F api codec c ms n).server c.client_id (server_channel_id k)
      ≡ out.outbox n.server c.client_id (server_channel_id k) ++ bytes codec (carried ms k)
unfolding send_messages send_message collect Taken
outbox-send_messages F api out codec c k [] n h = sym (append-nil _)
outbox-send_messages F api out codec c k ((type, m) ∷ ms) n h =
    let i = server_channel_id (map_type_channel type) in
    let rest =
      outbox-send_messages F api out codec c k ms (send_message F api codec type m c n) h.1 in
    let j = server_channel_id k in
    let b = codec.serialize m in
    let before = out.outbox n.server c.client_id j in
    let later = carried ms k in
    elim (Bool-cases (j == i)) [
      | inl e ↦
          let same : j ≡ i = (==_iff j i).0 e in
          let carries : on_channel k (type, m) ≡ m ∷ [] = rw e refl in
          let one : out.outbox (api.send_message c.client_id i b n.server) c.client_id j
              ≡ before ++ b ∷ [] =
            subst
              (λ l.
                out.outbox (api.send_message c.client_id l b n.server) c.client_id j
                ≡ before ++ b ∷ [])
              same
              (out.send_message-same c.client_id j b n.server
                (subst (λ l. out.takes n.server c.client_id l b ≡ true) (sym same) h.0)) in
          rest
          ∙ ap (λ l. l ++ bytes codec later) one
          ∙ append_assoc before (b ∷ []) (bytes codec later)
          ∙ ap (λ l. before ++ bytes codec (l ++ later)) (sym carries)
      | inr e ↦
          let other : j ≢ i = ground arith in
          let carries : on_channel k (type, m) ≡ [] = rw e refl in
          rest
          ∙ ap (λ l. l ++ bytes codec later)
              (out.send_message-other c.client_id i b n.server j h.0 other)
          ∙ ap (λ l. before ++ bytes codec (l ++ later)) (sym carries)
    ]

module _ (F : Flume) (laws : IsFifo F) {C T M E Err D R Duration Reason : Type 0}
    (codec : Codec M E) (rt : IsRoundTrip codec) (capi : ClientCrates C T R Duration Err Reason)
    (box : IsInbox capi) ⦃f : Float R⦄ (info : DebugInfo D) (insert_f64 : D → String → R → D)
    (from_secs_f64 : R → Option ℕ) where
  -- The server sends some messages of any types to a client for which nothing stood in the crate, and
  -- the crate takes each of them. Of what it took on a channel, it has brought to the client's side what
  -- the channel's configuration promises: on an ordered channel all in order, on an unordered one all in
  -- some order, and on an unreliable one some. A step of the client that is connected, whose queues have
  -- receivers and whose round trip is a time, where the transport could be updated, with more fuel than
  -- messages wait on any channel: channel after channel, the same comes of the messages that were sent
  -- with the types of that channel. They stand in the client's queue, and no message has made an error.
  pub messages_delivered :
      {S T' M' Err' Duration' Reason' Addr : Type 0}
      (api : ServerCrates S T' Duration' Err' Reason' Addr) (out : IsOutbox api)
      (c : RenetServerConnection) (ms : List (NetworkMessageType × M))
      (server : RenetServerNetwork F S T' M' Err') (n : RenetClientNetwork F C T M E Err D)
      (half_second : Duration') (fuel : ℕ) (delta : Duration) (rtt : ℕ) (transport : T) (client : C)
      (failed : Option Err) (transport' : T) (client' : C)
      → ((k : ServerChannel) → out.outbox server.server c.client_id (server_channel_id k) ≡ [])
      → Taken F out codec c ms server
      → ((k : ServerChannel)
          → Comes (way_of half_second k) (waiting box client' k) (
              out.outbox
                (send_messages F api codec c ms server).server
                c.client_id
                (server_channel_id k)))
      → IsOpen F laws n
      → capi.is_disconnected n.client ≡ false
      → from_secs_f64 (capi.rtt n.client) ≡ some rtt
      → capi.transport_update delta n.transport (capi.update delta n.client)
        ≡ (none, transport, client)
      → capi.send_packets transport (handed capi (F.pending n.network_client_sended) client)
        ≡ (failed, transport', client')
      → All (λ k. length (waiting box client' k) < fuel) server_channels
      → (t : RenetClientNetwork F C T M E Err D) × (got : ServerChannel → List M) × (step F capi
            codec info insert_f64 from_secs_f64 fuel delta n
          ≡ ran (t, true))
        × All (λ k. Comes (way_of half_second k) (got k) (carried ms k)) server_channels
        × (F.pending t.network_decoder_out
            ≡ F.pending n.network_decoder_out ++ collect got server_channels)
        × (F.pending t.network_errors_out ≡ F.pending n.network_errors_out ++ failure failed)
  messages_delivered api out c ms server n half_second fuel delta rtt transport client failed
        transport' client' empty taken delivered o up time updated sent h =
      let (t, ends, v) =
        step_exchange F laws codec capi box info insert_f64 from_secs_f64 n fuel delta rtt transport
          client failed transport' client' o up time updated sent h in
      let value = value_of codec in
      let fault = fault_of codec {Err = Err} in
      let came : (k : ServerChannel)
          → Comes (way_of half_second k) (waiting box client' k) (bytes codec (carried ms k)) =
        λ k.
          subst (Comes (way_of half_second k) (waiting box client' k))
            (outbox-send_messages F api out codec c k ms server taken
              ∙ ap (λ l. l ++ bytes codec (carried ms k)) (empty k))
            (delivered k) in
      let no_errors : collect fault (incoming box client') ≡ [] =
        collect-collect fault (waiting box client') server_channels
        ∙ collect-ext _ (λ k. []) server_channels
            (All-every _ server_channels (λ k. Comes-none (way_of half_second k) _ (
              subst (Comes (way_of half_second k) (collect fault (waiting box client' k)))
                (no_faults codec rt (carried ms k))
                (Comes-collect fault (way_of half_second k) _ _ (came k)))))
        ∙ collect-none server_channels in
      (
        t,
        λ k. collect value (waiting box client' k),
        ends,
        All-every _ server_channels (λ k.
            subst (Comes (way_of half_second k) (collect value (waiting box client' k)))
              (decode_all codec rt (carried ms k))
              (Comes-collect value (way_of half_second k) _ _ (came k))),
        v.messages
            ∙ ap (λ l. F.pending n.network_decoder_out ++ l)
                (collect-collect value (waiting box client') server_channels),
        v.errors
            ∙ ap (λ l. F.pending n.network_errors_out ++ failure failed ++ l) no_errors
            ∙ append-nil (F.pending n.network_errors_out ++ failure failed),
      )
