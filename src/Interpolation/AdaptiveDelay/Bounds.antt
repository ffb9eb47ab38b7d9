-- ===== src/Interpolation/AdaptiveDelay/Bounds.antt =====
-- The range of the delay, and when asking for it panics.
use brilliance_network.Prelude.{
  ◌≡◌, ◌↔◌, inl, inr, false, List, [], ◌∷◌, arith, Bool-cases, Option-cases, panic,
}
use brilliance_network.Float.{Float, IsNum, IsOrdered, ◌⊑◌, max_num, clamp, le_of_lt, le_of_not_lt}
use brilliance_network.Interpolation.AdaptiveDelay.{
  AdaptiveDelay, new, is_regular, smooth, record_interval, record_arrival, delay,
}

module _ {R : Type 0} ⦃f : Float R⦄ where
  open f use {le, mul, div, literal}

  unfoldable pub record_all : AdaptiveDelay R → List R → AdaptiveDelay R
  record_all d [] = d
  record_all d (t ∷ ts) = record_all (record_arrival d t) ts

  -- What no arrival changes.
  record SameLimits (d e : AdaptiveDelay R) : Type 0 where
    min_delay : e.min_delay ≡ d.min_delay
    max_delay : e.max_delay ≡ d.max_delay
    expected_interval : e.expected_interval ≡ d.expected_interval

  record_arrival-SameLimits : (d : AdaptiveDelay R) (t : R) → SameLimits d (record_arrival d t)
  unfolding record_arrival
  record_arrival-SameLimits d t = ground arith

  record_all-SameLimits : (d : AdaptiveDelay R) (ts : List R) → SameLimits d (record_all d ts)
  unfolding record_all
  record_all-SameLimits d [] = ground arith
  record_all-SameLimits d (t ∷ ts) =
      ground (arith, record_arrival-SameLimits d t, record_all-SameLimits (record_arrival d t) ts)

  -- Whatever has arrived, `delay` panics exactly when six expected intervals are not at most half a
  -- second.
  pub delay-panic :
      (tps : R) (ts : List R)
      → (delay (record_all (new tps) ts) ≡ panic)
        ↔ (le (mul (div (literal 1 0) tps) (literal 6 0)) (literal 5 1) ≡ false)
  unfolding delay clamp new
  delay-panic tps ts = ground (arith, record_all-SameLimits (new tps) ts)

  -- The average is not below half the expected interval.
  abbrev pub IsFloored : AdaptiveDelay R → Type 0
  IsFloored d = mul d.expected_interval (literal 5 1) ⊑ d.avg_interval

  module _ (laws : IsOrdered R) where
    open laws use {lt-IsNum, lt-eq-not-le, le_total}

    le-max_num : (x y : R) → IsNum y → y ⊑ max_num x y
    unfolding max_num
    le-max_num x y n = ground (arith, le_of_lt laws x y, le_of_not_lt laws x y)

    record_interval-IsFloored :
        (d : AdaptiveDelay R) (i : R) → IsFloored d → IsFloored (record_interval d i)
    unfolding record_interval
    record_interval-IsFloored d i h =
        let (n, _) = laws.le-IsNum (mul d.expected_interval (literal 5 1)) d.avg_interval h in
        let raised =
          le-max_num (smooth d.ema_alpha d.avg_interval i) (mul d.expected_interval (literal 5 1))
            n in
        elim (Bool-cases (is_regular d i)) [ inl e ↦ rw e raised | inr e ↦ rw e h ]

    record_arrival-IsFloored :
        (d : AdaptiveDelay R) (t : R) → IsFloored d → IsFloored (record_arrival d t)
    unfolding record_arrival
    record_arrival-IsFloored d t h = elim (Option-cases d.last_push_time) [
      | inl e ↦ rw e h
      | inr (last, e) ↦ rw e (record_interval-IsFloored d (f.sub t last) h)
    ]

    record_all-IsFloored :
        (d : AdaptiveDelay R) (ts : List R) → IsFloored d → IsFloored (record_all d ts)
    unfolding record_all
    record_all-IsFloored d [] h = h
    record_all-IsFloored d (t ∷ ts) h =
        record_all-IsFloored (record_arrival d t) ts (record_arrival-IsFloored d t h)

    -- Where half an expected interval is not more than a whole one, no run of arrivals pulls the
    -- average below half of the expected interval.
    pub record_all-new-IsFloored :
        (tps : R) (ts : List R)
        → mul (div (literal 1 0) tps) (literal 5 1) ⊑ div (literal 1 0) tps
        → IsFloored (record_all (new tps) ts)
    record_all-new-IsFloored tps ts h = record_all-IsFloored (new tps) ts (unfold new in h)
