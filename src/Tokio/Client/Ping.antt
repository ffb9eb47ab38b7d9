-- ===== src/Tokio/Client/Ping.antt =====
-- The ping of a client: the writer's timer, and the reader's pong.
use brilliance_network.Prelude.{
  ℕ, ◌-◌, ◌%◌, ◌^◌, ◌<◌, ◌≡◌, refl, sym, ◌∙◌, ap, inl, inr, none, some, List, [], ◌∷◌, ◌++◌, arith,
  Bool-cases,
}
use brilliance_network.Channel.{Flume, IsFifo, Codec}
use brilliance_network.Tokio.Frame.{ByteWriter, IsWriter, frame_ping, frame_pong}
use brilliance_network.Tokio.Frame.RoundTrip.{encode}
use brilliance_network.Tokio.Reader.{Flow, continues, stops}
use brilliance_network.Tokio.Writer.{Writing, disconnected, flush_all}
use brilliance_network.Tokio.Writer.Batch.{write_one_cases, flush_all_cases}
use brilliance_network.Tokio.Client.{
  TokioClient, ClientWriting, tick, on_frame, on_pong, send_ping, with_writing, client_writer_round,
}

stops-ne : {S : Type 0} {a b : S} → ¬ (stops a ≡ continues b)
stops-ne h = cc

continues-inj : {S : Type 0} {a b : S} → continues a ≡ continues b → a ≡ b
continues-inj h = cc

some-inj : {A : Type 0} {a b : A} → some a ≡ some b → a ≡ b
some-inj h = cc

module _ (F : Flume) {W : Type 0} (w : ByteWriter W) where
  with_writing-continues :
      (s u : ClientWriting F W) (flow : Flow (Writing F W))
      → with_writing F w s flow ≡ continues u
      → (y : Writing F W) × (flow ≡ continues y) × (record s { writing = y } ≡ u)
  unfolding with_writing
  with_writing-continues s u (continues y) e = (y, refl, continues-inj e)
  with_writing-continues s u (stops y) e = absurd (stops-ne e)

module _ (F : Flume) (laws : IsFifo F) {W : Type 0} (w : ByteWriter W) (wl : IsWriter w) where
  open wl use {written}

  send_ping-continues :
      (x y : Writing F W)
      → send_ping F w x ≡ continues y
      → written y.sink ≡ written x.sink ++ encode (frame_ping ∷ [])
  unfolding send_ping
  send_ping-continues x y e = elim (write_one_cases F laws w wl (frame_ping ∷ []) x) [
    | inl stopped ↦
        let stopping : send_ping F w x ≡ stops (disconnected F w x) =
          rw (stopped, send_ping) refl in
        absurd (stops-ne (sym stopping ∙ e))
    | inr (sink, went, bytes) ↦
        let x' : Writing F W = record x { sink = sink } in
        let wrote : send_ping F w x ≡ flush_all F w x' = rw (went, send_ping) refl in
        let flushing : flush_all F w x' ≡ continues y = sym wrote ∙ e in
        elim (flush_all_cases F laws w wl x') [
          | inl stopped ↦ absurd (stops-ne (sym stopped ∙ flushing))
          | inr (sink', flushed, kept, _) ↦
              let same : record x' { sink = sink' } ≡ y = continues-inj (sym flushed ∙ flushing) in
              ap (λ k. written k.sink) (sym same) ∙ kept ∙ bytes
        ]
  ]

  client_writer_round-tick :
      (fuel sent : ℕ) (s u : ClientWriting F W)
      → client_writer_round F w fuel (tick sent) s ≡ some (continues u)
      → (u.last_ping_sent ≡ some sent)
        × (written u.writing.sink ≡ written s.writing.sink ++ encode (frame_ping ∷ []))
  unfolding client_writer_round
  client_writer_round-tick fuel sent s u e = elim (Bool-cases s.writing.connected) [
    | inl on ↦
        let s' : ClientWriting F W = record s { last_ping_sent = some sent } in
        let runs : client_writer_round F w fuel (tick sent) s
            ≡ some (with_writing F w s' (send_ping F w s.writing)) =
          rw (on, client_writer_round) refl in
        let round : with_writing F w s' (send_ping F w s.writing) ≡ continues u =
          some-inj (sym runs ∙ e) in
        let (y, pinged, same) = with_writing-continues F w s' u (send_ping F w s.writing) round in
        (
          ap (λ k. k.last_ping_sent) (sym same),
          ap (λ k. written k.writing.sink) (sym same) ∙ send_ping-continues s.writing y pinged,
        )
    | inr off ↦
        let runs : client_writer_round F w fuel (tick sent) s ≡ some (stops s) =
          rw (off, client_writer_round) refl in
        absurd (stops-ne (some-inj (sym runs ∙ e)))
  ]

  -- A tick of the writer's timer after which the writer goes on has written a ping. The first pong that
  -- the reader then gets, less than 2^64 nanoseconds later, sets the round trip to the time since the
  -- tick; a pong after that one, with no tick between them, changes nothing.
  pub ping_measured :
      {M E D : Type 0} (codec : Codec M E) (fuel sent now later : ℕ) (s u : ClientWriting F W)
      (c : TokioClient F M E D) (body : List ℕ)
      → client_writer_round F w fuel (tick sent) s ≡ some (continues u)
      → now - sent < 2 ^ 64
      → let d = record c { last_ping_sent = u.last_ping_sent } in
        let t = record d { last_ping_sent = none; rtt_nanos = now - sent } in
        (written u.writing.sink ≡ written s.writing.sink ++ encode (frame_ping ∷ []))
        × (on_frame F codec now (frame_pong ∷ body) d ≡ continues t)
        × (on_frame F codec later (frame_pong ∷ body) t ≡ continues t)
  unfolding on_frame on_pong
  ping_measured codec fuel sent now later s u c body e h =
      let (noted, bytes) = client_writer_round-tick fuel sent s u e in
      let small : (now - sent) % 2 ^ 64 ≡ now - sent = omega arith in
      (bytes, rw (noted, small) refl, refl)
