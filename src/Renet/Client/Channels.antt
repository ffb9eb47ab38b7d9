-- ===== src/Renet/Client/Channels.antt =====
-- The loops of the UDP client over the channels of the server.
use mathlib.Core.List.{append-nil}
use brilliance_network.Prelude.{
  ℕ, ◌<◌, ◌≡◌, ◌≢◌, refl, sym, ◌∙◌, subst, true, List, [], ◌∷◌, length, All, All-weaken, collect,
  collect-ext, All-length, DistinctBy,
}
use brilliance_network.Channel.{Flume, IsFifo, Codec}
use brilliance_network.Renet.Channels.{ServerChannel, server_channel_id}
use brilliance_network.Renet.Run.{ran, while_some, while_some_lem}
use brilliance_network.Renet.Client.{
  ClientCrates, RenetClientNetwork, on_server_message, receive_next, receive_all,
}
use brilliance_network.Renet.Client.Receiving.{
  IsInbox, Received, Received-nil, Received-trans, waiting, OthersKept, Rest, Rest-last, Rest-more,
}

module _ (F : Flume) (laws : IsFifo F) {C T M E Err D : Type 0} (codec : Codec M E)
    {R Duration Reason : Type 0} (api : ClientCrates C T R Duration Err Reason)
    (box : IsInbox api) where
  open box use {inbox}

  -- One channel is emptied, and the others are as they were.
  receive_channel_lem :
      (k : ServerChannel) (n : RenetClientNetwork F C T M E Err D) (fuel : ℕ)
      → F.is_open n.network_decoder_out ≡ true
      → F.is_open n.network_errors_out ≡ true
      → length (waiting box n.client k) < fuel
      → (t : RenetClientNetwork F C T M E Err D) × (while_some
            (receive_next F api codec k)
            (on_server_message F api codec)
            fuel
            n
          ≡ ran t)
        × Received F laws codec (waiting box n.client k) n t
        × (waiting box t.client k ≡ [])
        × OthersKept box (server_channel_id k) n.client t.client
  receive_channel_lem k n fuel a b h =
      let begin : Rest F laws codec api box k n (waiting box n.client k) n = record {
        taken = [];
        all_of = refl;
        left = refl;
        so_far = Received-nil F laws codec n a b;
        others = λ j d. refl;
      } in
      let (t, ends, p) =
        while_some_lem (receive_next F api codec k) (on_server_message F api codec)
          (Rest F laws codec api box k n) (Rest-last F laws codec api box k n)
          (Rest-more F laws codec api box k n) fuel (waiting box n.client k) n h begin in
      let whole : p.taken ≡ waiting box n.client k = sym (append-nil p.taken) ∙ p.all_of in
      (t, ends, subst (λ xs. Received F laws codec xs n t) whole p.so_far, p.left, p.others)

  -- Channels with different ids, one after the other.
  pub receive_all_lem :
      (ks : List ServerChannel) (n : RenetClientNetwork F C T M E Err D) (fuel : ℕ)
      → DistinctBy server_channel_id ks
      → F.is_open n.network_decoder_out ≡ true
      → F.is_open n.network_errors_out ≡ true
      → All (λ k. length (waiting box n.client k) < fuel) ks
      → (t : RenetClientNetwork F C T M E Err D) × (receive_all F api codec fuel ks n ≡ ran t)
        × Received F laws codec (collect (waiting box n.client) ks) n t
        × All (λ k. waiting box t.client k ≡ []) ks
        × ((j : ℕ) → All (λ k. server_channel_id k ≢ j) ks → inbox t.client j ≡ inbox n.client j)
  unfolding receive_all collect
  receive_all_lem [] n fuel d a b h = (n, refl, Received-nil F laws codec n a b, tt, λ j o. refl)
  receive_all_lem (k ∷ ks) n fuel d a b h =
      let (s, first, v, empty, others) = receive_channel_lem k n fuel a b h.0 in
      let same : All (λ l. waiting box s.client l ≡ waiting box n.client l) ks =
        All-weaken _ _ ks (λ l o. others (server_channel_id l) o) d.0 in
      let enough : All (λ l. length (waiting box s.client l) < fuel) ks =
        All-length _ _ fuel ks same h.1 in
      let (t, rest, w, empties, others') =
        receive_all_lem ks s fuel d.1 v.messages_open v.errors_open enough in
      (
        t,
        rw (first, receive_all) rest,
        Received-trans F laws codec v
            (subst (λ xs. Received F laws codec xs s t) (collect-ext _ _ ks same) w),
        (others' (server_channel_id k) d.0 ∙ empty, empties),
        λ j o. others' j o.1 ∙ others j (λ e. o.0 (sym e)),
      )
