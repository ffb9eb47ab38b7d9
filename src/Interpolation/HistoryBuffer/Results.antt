-- ===== src/Interpolation/HistoryBuffer/Results.antt =====
-- Which answer `sample` gives where: the pair of snapshots that brackets the time, and the panic.
use brilliance_network.Prelude.{
  ℕ, suc, ◌≡◌, ◌↔◌, refl, subst, ◌∙◌, inl, inr, some, List, [], ◌∷◌, arith, get_elem?, Bool-cases,
  done, panic,
}
use brilliance_network.Float.{
  Float, Narrow, IsNum, IsOrdered, ◌⊑◌, ◌⊏◌, le_of_lt, le_of_not_lt, lt_of_not_le, not_le_of_lt,
}
use brilliance_network.Interpolation.HistoryBuffer.{
  TimestampedSnapshot, HistoryBuffer, interpolate, extrapolate, factor, sample,
}
use brilliance_network.Interpolation.HistoryBuffer.Order.{IsSorted}
use brilliance_network.Interpolation.HistoryBuffer.Around.{
  walk, sample_spec, last_two, last_two-All,
}
use brilliance_network.Interpolation.HistoryBuffer.Sample.{sample-eq-sample_spec, walk_after}

module _ {T R : Type 0} ⦃f : Float R⦄ where
  -- Two neighbours of the buffer, the first not after the time and the second after it.
  abbrev pub Brackets :
      List (TimestampedSnapshot T R)
      → R
      → TimestampedSnapshot T R
      → TimestampedSnapshot T R
      → Type 0
  Brackets xs time before after =
      (i : ℕ) × (get_elem? xs i ≡ some before)
      × (get_elem? xs (suc i) ≡ some after)
      × (before.timestamp ⊑ time)
      × (time ⊏ after.timestamp)

  -- At least two snapshots are there, and the time is that of the last one but not of the first.
  abbrev pub IsAtEnd : List (TimestampedSnapshot T R) → R → Type 0
  IsAtEnd [] time = ⊥
  IsAtEnd (x ∷ []) time = ⊥
  IsAtEnd (x ∷ y ∷ r) time =
      x.timestamp ⊏ time × (last_two x y r).1.timestamp ⊑ time × time ⊑ (last_two x y r).1.timestamp

module _ {T R S : Type 0} ⦃f : Float R⦄ ⦃g : Float S⦄ ⦃n : Narrow R S⦄ (laws : IsOrdered R) where
  walk-Brackets :
      (time : R) (x y : TimestampedSnapshot T R) (r : List (TimestampedSnapshot T R))
      → IsSorted (x ∷ y ∷ r)
      → IsNum time
      → x.timestamp ⊑ time
      → time ⊏ (last_two x y r).1.timestamp
      → (before : TimestampedSnapshot T R) × (after : TimestampedSnapshot T R) × (walk {S = S} time
            x y r
          ≡ done (interpolate before after (factor before.timestamp after.timestamp time)))
        × Brackets (x ∷ y ∷ r) time before after
  unfolding walk last_two
  walk-Brackets time x y [] s n p q = (
    x,
    y,
    ground (arith, not_le_of_lt laws time y.timestamp q, le_of_lt laws y.timestamp time),
    (0, refl, refl, p, q),
  )
  walk-Brackets time x y (z ∷ r) s n p q = elim (Bool-cases (f.le y.timestamp time)) [
    | inl e ↦
        let (before, after, w, (i, b, a, l, u)) = walk-Brackets time y z r s.2 n e q in
        (before, after, rw e w, (suc i, b, a, l, u))
    | inr e ↦ (x, y, rw e, (0, refl, refl, p, lt_of_not_le laws y.timestamp time s.2.0 n e))
  ]

  walk-panic :
      (time : R) (x y : TimestampedSnapshot T R) (r : List (TimestampedSnapshot T R))
      → IsSorted (x ∷ y ∷ r)
      → IsNum time
      → (walk {S = S} time x y r ≡ panic)
        ↔ ((last_two x y r).1.timestamp ⊑ time × time ⊑ (last_two x y r).1.timestamp)
  unfolding walk last_two
  walk-panic time x y [] s n = (
    λ e. ground (arith, le_of_not_lt laws y.timestamp time s.2.0 n),
    λ q. ground (arith, not_le_of_lt laws y.timestamp time),
  )
  walk-panic time x y (z ∷ r) s n =
      let last = (last_two y z r).1 in
      let (to, from) = walk-panic time y z r s.2 n in
      let older = last_two-All (λ w. y.timestamp ⊑ w.timestamp) y z r s.2.1 in
      (
        λ e. ground (arith, to),
        λ q. ground (arith, from q, laws.le_trans y.timestamp last.timestamp time older),
      )

  sample_spec-panic :
      (xs : List (TimestampedSnapshot T R)) (time : R)
      → IsSorted xs
      → IsNum time
      → (sample_spec {S = S} xs time ≡ panic) ↔ IsAtEnd xs time
  unfolding sample_spec
  sample_spec-panic [] time s n = (λ e. cc, λ q. elim q [ ])
  sample_spec-panic (x ∷ []) time s n = (λ e. cc, λ q. elim q [ ])
  sample_spec-panic (x ∷ y ∷ r) time s n =
      let (to, from) = walk-panic time x y r s n in
      (
        λ e. ground (arith, to, lt_of_not_le laws time x.timestamp n s.0),
        λ q. ground (arith, from (q.1, q.2), not_le_of_lt laws x.timestamp time q.0),
      )

  -- For sorted timestamps and a time that is not NaN, `sample` panics exactly at the time of the last
  -- of at least two snapshots, unless the first has that time too.
  pub sample-panic :
      (h : HistoryBuffer T R) (time : R)
      → IsSorted h.buffer
      → IsNum time
      → (sample {S = S} h time ≡ panic) ↔ IsAtEnd h.buffer time
  sample-panic h time s n =
      rw (sample-eq-sample_spec {S = S} laws h time s n) (sample_spec-panic h.buffer time s n)

  -- For sorted timestamps, at a time after the first snapshot and before the last, `sample`
  -- interpolates between two neighbours, of which the first is not after the time and the second is
  -- after it.
  pub sample-interpolate :
      (h : HistoryBuffer T R) (x y : TimestampedSnapshot T R) (r : List (TimestampedSnapshot T R))
      (time : R)
      → h.buffer ≡ x ∷ y ∷ r
      → IsSorted h.buffer
      → x.timestamp ⊏ time
      → time ⊏ (last_two x y r).1.timestamp
      → (before : TimestampedSnapshot T R) × (after : TimestampedSnapshot T R) × (sample {S = S} h
            time
          ≡ done (interpolate before after (factor before.timestamp after.timestamp time)))
        × Brackets h.buffer time before after
  sample-interpolate h x y r time b s p q =
      let num = (laws.lt-IsNum x.timestamp time p).1 in
      let sorted : IsSorted (x ∷ y ∷ r) = subst IsSorted b s in
      let (before, after, w, found) =
        walk-Brackets time x y r sorted num (le_of_lt laws x.timestamp time p) q in
      let at_list : sample_spec {S = S} (x ∷ y ∷ r) time
          ≡ done (interpolate before after (factor before.timestamp after.timestamp time)) =
        unfold sample_spec in rw (not_le_of_lt laws x.timestamp time p) w in
      (before, after, sample-eq-sample_spec laws h time s num ∙ rw b at_list, rw b found)

  -- For sorted timestamps, at a time after the last of at least two snapshots, `sample` extrapolates
  -- from the last two by the time that has passed since.
  pub sample-extrapolate :
      (h : HistoryBuffer T R) (x y : TimestampedSnapshot T R) (r : List (TimestampedSnapshot T R))
      (time : R)
      → h.buffer ≡ x ∷ y ∷ r
      → IsSorted h.buffer
      → (last_two x y r).1.timestamp ⊏ time
      → let (prev, last) = last_two x y r in
        sample {S = S} h time ≡ done (extrapolate prev last (f.sub time last.timestamp))
  sample-extrapolate h x y r time b s p =
      let num = (laws.lt-IsNum _ time p).1 in
      let sorted : IsSorted (x ∷ y ∷ r) = subst IsSorted b s in
      let last = (last_two x y r).1 in
      let older = last_two-All (λ w. x.timestamp ⊑ w.timestamp) x y r sorted.1 in
      let after = walk_after {S = S} laws time x y r sorted.2 p in
      let at_list : sample_spec {S = S} (x ∷ y ∷ r) time
          ≡ done (extrapolate (last_two x y r).0 last (f.sub time last.timestamp)) =
        unfold sample_spec in
        ground (
          arith,
          after,
          not_le_of_lt laws last.timestamp time p,
          laws.le_trans time x.timestamp last.timestamp,
        ) in
      sample-eq-sample_spec laws h time s num ∙ rw b at_list
