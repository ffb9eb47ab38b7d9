-- ===== src/Interpolation/HistoryBuffer/Sample.antt =====
-- `sample` against a description by one pass along the timestamps.
use brilliance_network.Prelude.{
  ℕ, suc, ◌-◌, ◌≡◌, refl, sym, ◌∙◌, inl, inr, Bool, true, false, List, [], ◌∷◌, arith, length, All,
  Bool-cases, Outcome, done, ◌>>=◌, index, usize_sub, usize_sub-suc,
}
use brilliance_network.Float.{Float, Narrow, IsNum, IsOrdered, ◌⊑◌, ◌⊏◌, le_of_lt, le_of_not_le}
use brilliance_network.Interpolation.HistoryBuffer.{
  TimestampedSnapshot, HistoryBuffer, SampleResult, interpolate, extrapolate, factor, bracket,
  past_first, sample,
}
use brilliance_network.Interpolation.HistoryBuffer.Order.{IsSorted}
use brilliance_network.Interpolation.HistoryBuffer.Search.{
  prefix_len, IsPartitioned, partition_point-eq-prefix_len,
}
use brilliance_network.Interpolation.HistoryBuffer.Around.{
  last_two, get_elem?-last, get_elem?-prev, last_two-All, walk, sample_spec,
}

module _ {T R : Type 0} ⦃f : Float R⦄ where
  abbrev passed : R → TimestampedSnapshot T R → Bool
  passed time s = f.le s.timestamp time

  module _ (laws : IsOrdered R) where
    open laws use {le_trans}

    All-fails :
        (time : R) (x : TimestampedSnapshot T R) (xs : List (TimestampedSnapshot T R))
        → All (λ y. x.timestamp ⊑ y.timestamp) xs
        → passed time x ≡ false
        → All (λ y. passed time y ≡ false) xs
    All-fails time x [] a e = tt
    All-fails time x (y ∷ ys) a e =
        (ground (arith, le_trans x.timestamp y.timestamp time a.0), All-fails time x ys a.1 e)

    IsSorted-IsPartitioned :
        (time : R) (xs : List (TimestampedSnapshot T R))
        → IsSorted xs
        → IsPartitioned (passed time) xs
    IsSorted-IsPartitioned time [] s = tt
    IsSorted-IsPartitioned time (x ∷ xs) s =
        (All-fails time x xs s.1, IsSorted-IsPartitioned time xs s.2)

module _ {T R S : Type 0} ⦃f : Float R⦄ ⦃g : Float S⦄ ⦃n : Narrow R S⦄ where
  -- What `bracket` reads at a given index.
  pick : List (TimestampedSnapshot T R) → R → ℕ → Outcome (SampleResult T R S)
  pick xs time k = do
    i ← usize_sub k 1
    before ← index xs i
    after ← index xs k
    done (interpolate before after (factor before.timestamp after.timestamp time))

  pick-cons :
      (x : TimestampedSnapshot T R) (xs : List (TimestampedSnapshot T R)) (time : R) (k : ℕ)
      → pick (x ∷ xs) time (suc (suc k)) ≡ pick xs time (suc k)
  unfolding pick
  pick-cons x xs time k = rw (usize_sub-suc (suc k), usize_sub-suc k)

  -- Up to the last snapshot, the scan and the indexed reads agree.
  pick-eq-walk :
      (time : R) (x y : TimestampedSnapshot T R) (r : List (TimestampedSnapshot T R))
      → f.le x.timestamp time ≡ true
      → f.lt (last_two x y r).1.timestamp time ≡ false
      → pick (x ∷ y ∷ r) time (prefix_len (passed time) (x ∷ y ∷ r)) ≡ walk time x y r
  unfolding prefix_len walk last_two
  pick-eq-walk time x y [] p q = elim (Bool-cases (f.le y.timestamp time)) [
    | inl e ↦ unfold pick in rw (p, e, q) (ground arith)
    | inr e ↦ unfold pick in rw (p, e, q) (ground arith)
  ]
  pick-eq-walk time x y (z ∷ r) p q = elim (Bool-cases (f.le y.timestamp time)) [
    | inl e ↦
        let ih = pick-eq-walk time y z r e q in
        rw (p, e) (pick-cons x (y ∷ z ∷ r) time _ ∙ rw e at ih)
    | inr e ↦ unfold pick in rw (p, e) (ground arith)
  ]

  module _ (laws : IsOrdered R) where
    open laws use {le_trans}

    pub walk_after :
        (time : R) (x y : TimestampedSnapshot T R) (r : List (TimestampedSnapshot T R))
        → IsSorted (y ∷ r)
        → (last_two x y r).1.timestamp ⊏ time
        → let (prev, last) = last_two x y r in
          walk {S = S} time x y r ≡ done (extrapolate prev last (f.sub time last.timestamp))
    unfolding walk last_two
    walk_after time x y [] s h = rw h
    walk_after time x y (z ∷ r) s h =
        let last = (last_two y z r).1 in
        let older = last_two-All (λ w. y.timestamp ⊑ w.timestamp) y z r s.1 in
        let p = le_trans y.timestamp last.timestamp time older (le_of_lt laws _ _ h) in
        rw p (walk_after time y z r s.2 h)

    past_first-eq-walk :
        (time : R) (x y : TimestampedSnapshot T R) (r : List (TimestampedSnapshot T R))
        → IsSorted (x ∷ y ∷ r)
        → x.timestamp ⊑ time
        → past_first {S = S} (x ∷ y ∷ r) time ≡ walk time x y r
    unfolding past_first bracket
    past_first-eq-walk time x y r s p =
        let n = length r in
        let top : suc (suc n) - 1 ≡ suc n = omega arith in
        let below : suc n - 1 ≡ n = omega arith in
        let last = (last_two x y r).1 in
        elim (Bool-cases (f.lt last.timestamp time)) [
          | inl after ↦
              rw (top, get_elem?-last x y r, after, below, get_elem?-prev x y r)
                (sym (walk_after time x y r s.2 after))
          | inr within ↦
              rw
                (
                  top,
                  get_elem?-last x y r,
                  within,
                  partition_point-eq-prefix_len (passed time) (x ∷ y ∷ r)
                      (IsSorted-IsPartitioned laws time (x ∷ y ∷ r) s),
                )
                (unfold pick in pick-eq-walk time x y r p within)
        ]

    sample-eq-walk :
        (time : R) (x y : TimestampedSnapshot T R) (r : List (TimestampedSnapshot T R)) (c : ℕ)
        → IsSorted (x ∷ y ∷ r)
        → IsNum time
        → sample {S = S} (record { buffer = x ∷ y ∷ r; capacity = c }) time
          ≡ sample_spec (x ∷ y ∷ r) time
    unfolding sample sample_spec
    sample-eq-walk time x y r c s n =
        ground (arith, past_first-eq-walk time x y r s, le_of_not_le laws time x.timestamp n s.0)

    -- On sorted timestamps and at a time that is not NaN, `sample` with its binary search computes
    -- what the single pass describes, panics included.
    pub sample-eq-sample_spec :
        (h : HistoryBuffer T R) (time : R)
        → IsSorted h.buffer
        → IsNum time
        → sample {S = S} h time ≡ sample_spec h.buffer time
    sample-eq-sample_spec h time s n = at_list h.buffer h.capacity s
      where
        at_list :
            (xs : List (TimestampedSnapshot T R)) (c : ℕ)
            → IsSorted xs
            → sample {S = S} (record { buffer = xs; capacity = c }) time ≡ sample_spec xs time
        at_list [] c s = unfold sample sample_spec in refl
        at_list (x ∷ []) c s = unfold sample sample_spec in refl
        at_list (x ∷ y ∷ r) c s = sample-eq-walk time x y r c s n
