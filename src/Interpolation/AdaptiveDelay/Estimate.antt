-- ===== src/Interpolation/AdaptiveDelay/Estimate.antt =====
-- The delay by the intervals between the arrivals, without the state of src/interpolation/adaptive_delay.rs.
use brilliance_network.Prelude.{
  ◌≡◌, refl, ◌∙◌, ap, ◌⊎◌, inl, inr, true, false, ◌&&◌, some, List, [], ◌∷◌, if◌then◌else◌,
  Bool-cases, done,
}
use brilliance_network.Float.{Float, IsNum, IsOrdered, ◌⊑◌, ◌⊏◌, max_num, clamp_bounds}
use brilliance_network.Interpolation.AdaptiveDelay.{
  AdaptiveDelay, new, is_regular, smooth, record_interval, record_arrival, wanted_delay, delay,
}
use brilliance_network.Interpolation.AdaptiveDelay.Bounds.{record_all}

module _ {R : Type 0} ⦃f : Float R⦄ where
  open f use {lt, add, sub, mul, div, abs, literal}

  -- From each time to the next.
  unfoldable pub intervals_from : R → List R → List R
  intervals_from t [] = []
  intervals_from t (u ∷ us) = sub u t ∷ intervals_from u us

  unfoldable pub intervals : List R → List R
  intervals [] = []
  intervals (t ∷ ts) = intervals_from t ts

  -- The average and the jitter after some intervals. Those of at most a millisecond, or of eight
  -- expected ones and more, do not count. Each other one weighs a fifth in the average, which is
  -- raised to half of the expected interval, and its distance from the average before it a fifth in
  -- the jitter.
  unfoldable pub estimate : R → R × R → List R → R × R
  estimate expected (avg, jitter) [] = (avg, jitter)
  estimate expected (avg, jitter) (i ∷ is) =
      let counted =
        estimate expected
          (
            max_num (add (mul avg (sub (literal 1 0) (literal 2 1))) (mul i (literal 2 1)))
                (mul expected (literal 5 1)),
            add (mul jitter (sub (literal 1 0) (literal 2 1)))
                (mul (abs (sub i avg)) (literal 2 1)),
          )
          is in
      let skipped = estimate expected (avg, jitter) is in
      if lt (literal 1 3) i && lt i (mul expected (literal 8 0)) then counted else skipped

  -- One and a half averages, and two jitters.
  unfoldable pub wanted : R × R → R
  wanted (avg, jitter) = add (mul avg (literal 15 1)) (mul jitter (literal 2 0))

  -- What is wanted after these arrivals at a server of that many ticks per second.
  unfoldable pub wanted_after : R → List R → R
  wanted_after tps ts =
      let expected = div (literal 1 0) tps in
      wanted (estimate expected (expected, literal 0 0) (intervals ts))

  -- The state is the estimate, and the limits are those of the start.
  record Tracks (tps : R) (e : R × R) (d : AdaptiveDelay R) : Type 0 where
    avg_interval : d.avg_interval ≡ e.0
    jitter : d.jitter ≡ e.1
    ema_alpha : d.ema_alpha ≡ literal 2 1
    expected_interval : d.expected_interval ≡ div (literal 1 0) tps
    min_delay : d.min_delay ≡ mul (div (literal 1 0) tps) (literal 6 0)
    max_delay : d.max_delay ≡ literal 5 1

  -- An arrival that counts, and one that does not.
  record_arrival-counts :
      (tps avg jitter : R) (d : AdaptiveDelay R) (t u : R)
      → Tracks tps (avg, jitter) d
      → d.last_push_time ≡ some t
      → (lt (literal 1 3) (sub u t) && lt (sub u t) (mul (div (literal 1 0) tps) (literal 8 0)))
        ≡ true
      → Tracks tps
          (
            max_num
                (add (mul avg (sub (literal 1 0) (literal 2 1))) (mul (sub u t) (literal 2 1)))
                (mul (div (literal 1 0) tps) (literal 5 1)),
            add
                (mul jitter (sub (literal 1 0) (literal 2 1)))
                (mul (abs (sub (sub u t) avg)) (literal 2 1)),
          )
          (record_arrival d u)
  unfolding record_arrival record_interval is_regular smooth
  record_arrival-counts tps avg jitter d t u v l h =
      let on : is_regular d (sub u t) ≡ true =
        ap (λ x. lt (literal 1 3) (sub u t) && lt (sub u t) (mul x (literal 8 0)))
          v.expected_interval
        ∙ h in
      rw (l, on)
        (record {
          avg_interval = rw (v.avg_interval, v.ema_alpha, v.expected_interval) refl;
          jitter = rw (v.avg_interval, v.jitter, v.ema_alpha) refl;
          ema_alpha = v.ema_alpha;
          expected_interval = v.expected_interval;
          min_delay = v.min_delay;
          max_delay = v.max_delay;
        })

  record_arrival-skips :
      (tps : R) (e : R × R) (d : AdaptiveDelay R) (t u : R)
      → Tracks tps e d
      → d.last_push_time ≡ some t
      → (lt (literal 1 3) (sub u t) && lt (sub u t) (mul (div (literal 1 0) tps) (literal 8 0)))
        ≡ false
      → Tracks tps e (record_arrival d u)
  unfolding record_arrival record_interval is_regular
  record_arrival-skips tps e d t u v l h =
      let off : is_regular d (sub u t) ≡ false =
        ap (λ x. lt (literal 1 3) (sub u t) && lt (sub u t) (mul x (literal 8 0)))
          v.expected_interval
        ∙ h in
      rw (l, off)
        (record {
          avg_interval = v.avg_interval;
          jitter = v.jitter;
          ema_alpha = v.ema_alpha;
          expected_interval = v.expected_interval;
          min_delay = v.min_delay;
          max_delay = v.max_delay;
        })

  record_arrival-last : (d : AdaptiveDelay R) (u : R) → (record_arrival d u).last_push_time ≡ some u
  unfolding record_arrival
  record_arrival-last d u = refl

  record_from-Tracks :
      (ts : List R) (tps avg jitter : R) (d : AdaptiveDelay R) (t : R)
      → Tracks tps (avg, jitter) d
      → d.last_push_time ≡ some t
      → Tracks tps
          (estimate (div (literal 1 0) tps) (avg, jitter) (intervals_from t ts))
          (record_all d ts)
  unfolding record_all estimate intervals_from
  record_from-Tracks [] tps avg jitter d t v l = v
  record_from-Tracks (u ∷ us) tps avg jitter d t v l =
      let i = sub u t in
      elim (Bool-cases (lt (literal 1 3) i && lt i (mul (div (literal 1 0) tps) (literal 8 0)))) [
        | inl h ↦ rw h (
            record_from-Tracks us tps _ _ (record_arrival d u) u
              (record_arrival-counts tps avg jitter d t u v l h) (record_arrival-last d u))
        | inr h ↦ rw h (
            record_from-Tracks us tps avg jitter (record_arrival d u) u
              (record_arrival-skips tps (avg, jitter) d t u v l h) (record_arrival-last d u))
      ]

  record_all-Tracks :
      (tps : R) (ts : List R)
      → let expected = div (literal 1 0) tps in
        Tracks tps
          (estimate expected (expected, literal 0 0) (intervals ts))
          (record_all (new tps) ts)
  unfolding new record_all intervals estimate record_arrival
  record_all-Tracks tps [] = record {
    avg_interval = refl;
    jitter = refl;
    ema_alpha = refl;
    expected_interval = refl;
    min_delay = refl;
    max_delay = refl;
  }
  record_all-Tracks tps (t ∷ ts) =
      record_from-Tracks ts tps (div (literal 1 0) tps) (literal 0 0) (record_arrival (new tps) t) t
        (record {
          avg_interval = refl;
          jitter = refl;
          ema_alpha = refl;
          expected_interval = refl;
          min_delay = refl;
          max_delay = refl;
        })
        refl

  -- Where six expected intervals are not more than half a second, and what is wanted after some
  -- arrivals at a new `AdaptiveDelay` is a number, `delay` returns a delay within these limits: what is
  -- wanted, or the limit that this is beyond. What is wanted depends on the intervals between the
  -- arrivals alone: one and a half of their weighted average and two of their weighted jitter, where
  -- the irregular ones do not count.
  pub delay_bounds :
      (laws : IsOrdered R) (tps : R) (ts : List R)
      → mul (div (literal 1 0) tps) (literal 6 0) ⊑ literal 5 1
      → IsNum (wanted_after tps ts)
      → (x : R) × (delay (record_all (new tps) ts) ≡ done x)
        × (mul (div (literal 1 0) tps) (literal 6 0) ⊑ x)
        × (x ⊑ literal 5 1)
        × ((x ≡ wanted_after tps ts)
            ⊎ ((wanted_after tps ts ⊏ mul (div (literal 1 0) tps) (literal 6 0))
                × (x ≡ mul (div (literal 1 0) tps) (literal 6 0)))
            ⊎ ((literal 5 1 ⊏ wanted_after tps ts) × (x ≡ literal 5 1)))
  unfolding delay wanted_delay wanted_after wanted
  delay_bounds laws tps ts h n =
      let d = record_all (new tps) ts in
      let v = record_all-Tracks tps ts in
      rw (v.avg_interval, v.jitter, v.min_delay, v.max_delay)
        (clamp_bounds laws (wanted_after tps ts) (mul (div (literal 1 0) tps) (literal 6 0))
          (literal 5 1) h n)
