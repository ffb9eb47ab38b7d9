-- ===== src/Interpolation/HistoryBuffer/Cleanup.antt =====
-- `cleanup_before`: what it keeps, and that sampling does not miss what it drops.
use brilliance_network.Prelude.{
  ℕ, ◌≤◌, ◌≡◌, refl, sym, ◌∙◌, inl, inr, List, [], ◌∷◌, ◌++◌, arith, ltb, length, ◌&&◌, Bool-cases,
}
use brilliance_network.Float.{
  Float, Narrow, IsOrdered, ◌⊑◌, ◌⊏◌, le_of_lt, lt_of_lt_of_le, not_le_of_lt,
}
use brilliance_network.Interpolation.HistoryBuffer.{
  TimestampedSnapshot, HistoryBuffer, cleanup_loop, cleanup_before, sample,
}
use brilliance_network.Interpolation.HistoryBuffer.Order.{IsSorted, cleanup_loop-IsSorted}
use brilliance_network.Interpolation.HistoryBuffer.Around.{sample_spec}
use brilliance_network.Interpolation.HistoryBuffer.Sample.{sample-eq-sample_spec}

module _ {T R : Type 0} ⦃f : Float R⦄ where
  -- `min_keep` entries stay, if there are so many, and one stays in any case.
  cleanup_loop-keeps :
      (xs : List (TimestampedSnapshot T R)) (time : R) (k : ℕ)
      → (k ≤ length xs → k ≤ length (cleanup_loop xs time k))
        × (1 ≤ length xs → 1 ≤ length (cleanup_loop xs time k))
        × (length xs ≤ k → cleanup_loop xs time k ≡ xs)
  unfolding cleanup_loop
  cleanup_loop-keeps [] time k = ground arith
  cleanup_loop-keeps (x ∷ []) time k = ground arith
  cleanup_loop-keeps (x ∷ y ∷ r) time k = ground (arith, cleanup_loop-keeps (y ∷ r) time k)

  -- What is dropped stood in front.
  cleanup_loop-suffix :
      (xs : List (TimestampedSnapshot T R)) (time : R) (k : ℕ)
      → (dropped : List (TimestampedSnapshot T R)) × (xs ≡ dropped ++ cleanup_loop xs time k)
  unfolding cleanup_loop
  cleanup_loop-suffix [] time k = ([], refl)
  cleanup_loop-suffix (x ∷ []) time k = ([], refl)
  cleanup_loop-suffix (x ∷ y ∷ r) time k =
      elim (Bool-cases (ltb k (length (x ∷ y ∷ r)) && f.lt y.timestamp time)) [
        | inl e ↦ let (gone, ih) = cleanup_loop-suffix (y ∷ r) time k in (x ∷ gone, rw e (cc))
        | inr e ↦ ([], rw e)
      ]

module _ {T R S : Type 0} ⦃f : Float R⦄ ⦃g : Float S⦄ ⦃n : Narrow R S⦄ (laws : IsOrdered R) where
  open laws use {le_trans}

  -- A front that stands before a snapshot older than the time of sampling is not looked at, while
  -- two remain.
  sample_spec-tail :
      (x y z : TimestampedSnapshot T R) (r : List (TimestampedSnapshot T R)) (t : R)
      → IsSorted (x ∷ y ∷ z ∷ r)
      → y.timestamp ⊏ t
      → sample_spec {S = S} (x ∷ y ∷ z ∷ r) t ≡ sample_spec (y ∷ z ∷ r) t
  unfolding sample_spec
  sample_spec-tail x y z r t s h = ground (
    arith,
    not_le_of_lt laws y.timestamp t h,
    le_of_lt laws y.timestamp t h,
    le_trans t x.timestamp y.timestamp,
  )

  sample_spec-cleanup_loop :
      (xs : List (TimestampedSnapshot T R)) (time t : R) (k : ℕ)
      → IsSorted xs
      → 2 ≤ k
      → time ⊑ t
      → sample_spec {S = S} (cleanup_loop xs time k) t ≡ sample_spec xs t
  unfolding cleanup_loop
  sample_spec-cleanup_loop [] time t k s h p = refl
  sample_spec-cleanup_loop (x ∷ []) time t k s h p = refl
  sample_spec-cleanup_loop (x ∷ y ∷ []) time t k s h p = ground arith
  sample_spec-cleanup_loop (x ∷ y ∷ z ∷ r) time t k s h p =
      elim (Bool-cases (ltb k (length (x ∷ y ∷ z ∷ r)) && f.lt y.timestamp time)) [
        | inl e ↦
            let older = lt_of_lt_of_le laws y.timestamp time t (ground arith) p in
            rw e (
              sample_spec-cleanup_loop (y ∷ z ∷ r) time t k s.2 h p
              ∙ sym (sample_spec-tail x y z r t s older))
        | inr e ↦ rw e
      ]

  -- For sorted timestamps, sampling at or after the time of a cleanup finds what it would have found
  -- without it, where the cleanup keeps two snapshots at least.
  pub sample-cleanup_before :
      (h : HistoryBuffer T R) (time t : R) (min_keep : ℕ)
      → IsSorted h.buffer
      → 2 ≤ min_keep
      → time ⊑ t
      → sample {S = S} (cleanup_before h time min_keep) t ≡ sample h t
  unfolding cleanup_before
  sample-cleanup_before h time t k s two p =
      let num = (laws.le-IsNum time t p).1 in
      sample-eq-sample_spec laws (cleanup_before h time k) t
        (cleanup_loop-IsSorted h.buffer time k s) num
      ∙ sample_spec-cleanup_loop h.buffer time t k s two p
      ∙ sym (sample-eq-sample_spec laws h t s num)
