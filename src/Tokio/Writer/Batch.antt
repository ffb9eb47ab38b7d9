-- ===== src/Tokio/Writer/Batch.antt =====
-- A batch of the writer task: everything that is queued goes out, in order, or the task disconnects.
use mathlib.Core.List.{append-nil, append_assoc}
use brilliance_network.Prelude.{
  ℕ, zero, suc, ◌<◌, ◌≡◌, refl, sym, ◌∙◌, ap, ◌⊎◌, inl, inr, Option, none, some, false, List, [],
  ◌∷◌, ◌++◌, arith, length,
}
use brilliance_network.Channel.{Flume, IsFifo}
use brilliance_network.Tokio.Frame.{ByteWriter, IsWriter, write_frame}
use brilliance_network.Tokio.Frame.RoundTrip.{
  encode, encode_all, write_frame-written, IoResult-cases,
}
use brilliance_network.Tokio.Reader.{Flow, continues, stops}
use brilliance_network.Tokio.Writer.{
  Writing, disconnected, write_one, flush_all, write_queued, write_received,
}

module _ (F : Flume) (laws : IsFifo F) {W : Type 0} (w : ByteWriter W) (wl : IsWriter w) where
  open wl use {written, on_stream}

  -- A writer that goes on has written the payloads and emptied its queue; one that stops has
  -- disconnected.
  abbrev pub Wrote : Writing F W → List (List ℕ) → Flow (Writing F W) → Type 0
  Wrote s ps (stops t) = t.connected ≡ false
  Wrote s ps (continues t) =
      (written t.sink ≡ written s.sink ++ encode_all ps)
      × (F.pending t.outgoing ≡ [])
      × (t.connected ≡ s.connected)

  pub write_one_cases :
      (p : List ℕ) (s : Writing F W)
      → (write_one F w p s ≡ stops (disconnected F w s))
        ⊎ ((sink : W) × (write_one F w p s ≡ continues (record s { sink = sink }))
            × (written sink ≡ written s.sink ++ encode p))
  unfolding write_one
  write_one_cases p s = elim (IoResult-cases (write_frame w s.sink p)) [
    | inl (e, failed) ↦ inl (rw (failed, write_one))
    | inr (sink, wrote) ↦
        inr (sink, rw (wrote, write_one), write_frame-written w wl s.sink sink p wrote)
  ]

  Wrote-cons :
      (s t : Writing F W) (p : List ℕ) (ps : List (List ℕ))
      → written t.sink ≡ written s.sink ++ encode p
      → t.connected ≡ s.connected
      → (flow : Flow (Writing F W)) → Wrote t ps flow
      → Wrote s (p ∷ ps) flow
  unfolding encode_all
  Wrote-cons s t p ps b c (stops u) e = e
  Wrote-cons s t p ps b c (continues u) (bytes, empty, same) = (
    bytes
        ∙ ap (λ xs. xs ++ encode_all ps) b
        ∙ append_assoc (written s.sink) (encode p) (encode_all ps),
    empty,
    same ∙ c,
  )

  write_queued_lem :
      (fuel : ℕ) (ps : List (List ℕ)) (s : Writing F W)
      → F.pending s.outgoing ≡ ps
      → length ps < fuel
      → (flow : Flow (Writing F W)) × (write_queued F w fuel s ≡ some flow) × Wrote s ps flow
  unfolding write_queued
  write_queued_lem zero ps s e h = absurd (omega arith)
  write_queued_lem (suc fuel) [] s e h = (
    continues s,
    rw (laws.try_recv-empty s.outgoing e, write_queued),
    unfold encode_all in (sym (append-nil (written s.sink)), e, refl),
  )
  write_queued_lem (suc fuel) (p ∷ ps) s e h =
      let (rest, taken, left, _) = laws.try_recv-cons p ps s.outgoing e in
      let s' = record s { outgoing = rest } in
      elim (write_one_cases p s') [
        | inl stopped ↦ (
          stops (disconnected F w s'),
          rw (taken, stopped, write_queued),
          unfold disconnected in refl,
        )
        | inr (sink, went, bytes) ↦
            let (flow, loops, wrote) =
              write_queued_lem fuel ps (record s' { sink = sink }) left (omega arith) in
            (
              flow,
              rw (taken, went, write_queued) loops,
              Wrote-cons s (record s' { sink = sink }) p ps bytes refl flow wrote,
            )
      ]

  pub flush_all_cases :
      (s : Writing F W)
      → (flush_all F w s ≡ stops (disconnected F w s))
        ⊎ ((sink : W) × (flush_all F w s ≡ continues (record s { sink = sink }))
            × (written sink ≡ written s.sink)
            × (on_stream sink ≡ written sink))
  unfolding flush_all
  flush_all_cases s = elim (IoResult-cases (w.flush s.sink)) [
    | inl (e, failed) ↦ inl (rw (failed, flush_all))
    | inr (sink, flushed) ↦ inr (
      sink,
      rw (flushed, flush_all),
      wl.flush-written s.sink flushed,
      wl.flush-on_stream s.sink flushed,
    )
  ]

  flushed-Wrote :
      (s t : Writing F W) (ps : List (List ℕ))
      → Wrote s ps (continues t)
      → Wrote s ps (flush_all F w t)
  flushed-Wrote s t ps (bytes, empty, same) = elim (flush_all_cases t) [
    | inl stopped ↦ rw stopped (unfold disconnected in refl)
    | inr (sink, went, kept, _) ↦ rw went (kept ∙ bytes, empty, same)
  ]

  -- A writer that goes on has nothing left in its buffer.
  abbrev pub Flushed : Flow (Writing F W) → Type 0
  Flushed (stops t) = Unit {0}
  Flushed (continues t) = on_stream t.sink ≡ written t.sink

  flush_all-Flushed : (s : Writing F W) → Flushed (flush_all F w s)
  flush_all-Flushed s = elim (flush_all_cases s) [
    | inl stopped ↦ rw stopped tt
    | inr (sink, went, kept, out) ↦ rw went out
  ]

  -- With more fuel than messages are queued, a round that has received one ends. It goes on only
  -- after that message and all that were queued have been written, in order, each as one frame, and
  -- all that was written has gone over the stream; else it has disconnected.
  pub write_received_lem :
      (fuel : ℕ) (p : List ℕ) (s : Writing F W)
      → length (F.pending s.outgoing) < fuel
      → (flow : Flow (Writing F W)) × (write_received F w fuel (some p) s ≡ some flow)
        × Wrote s (p ∷ F.pending s.outgoing) flow
        × Flushed flow
  unfolding write_received
  write_received_lem fuel p s h = elim (write_one_cases p s) [
    | inl stopped ↦
        (stops (disconnected F w s), rw (stopped, write_received), unfold disconnected in refl, tt)
    | inr (sink, went, bytes) ↦
        let s' : Writing F W = record s { sink = sink } in
        let (flow, loops, wrote) = write_queued_lem fuel (F.pending s.outgoing) s' refl h in
        let whole = Wrote-cons s s' p (F.pending s.outgoing) bytes refl flow wrote in
        finish flow s' (rw (went, write_received) refl) loops whole
  ]
    where
      after : Option (Flow (Writing F W)) → Option (Flow (Writing F W))
      after none = none
      after (some (stops u)) = some (stops u)
      after (some (continues u)) = some (flush_all F w u)

      finish :
          (flow : Flow (Writing F W)) (s' : Writing F W)
          → write_received F w fuel (some p) s ≡ after (write_queued F w fuel s')
          → write_queued F w fuel s' ≡ some flow
          → Wrote s (p ∷ F.pending s.outgoing) flow
          → (last : Flow (Writing F W)) × (write_received F w fuel (some p) s ≡ some last)
            × Wrote s (p ∷ F.pending s.outgoing) last
            × Flushed last
      finish (stops u) s' e l k = (stops u, e ∙ rw l refl, k, tt)
      finish (continues u) s' e l k = (
        flush_all F w u,
        e ∙ rw l refl,
        flushed-Wrote s u (p ∷ F.pending s.outgoing) k,
        flush_all-Flushed u,
      )
