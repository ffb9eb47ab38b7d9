-- ===== src/Interpolation/AdaptiveDelay.antt =====
-- src/interpolation/adaptive_delay.rs: how far behind the server a client draws.
pub mod Bounds
pub mod Estimate
use brilliance_network.Prelude.{Bool, Option, none, some, ◌&&◌, if◌then◌else◌, Outcome}
use brilliance_network.Float.{Float, max_num, clamp}

pub record AdaptiveDelay (R : Type 0) : Type 0 where
  pub avg_interval : R
  pub jitter : R
  pub last_push_time : Option R
  pub ema_alpha : R
  pub min_delay : R
  pub max_delay : R
  pub expected_interval : R

module _ {R : Type 0} ⦃f : Float R⦄ where
  open f use {lt, add, sub, mul, div, abs, literal}

  unfoldable pub new : R → AdaptiveDelay R
  new server_tps =
      let expected = div (literal 1 0) server_tps in
      record {
        avg_interval = expected;
        jitter = literal 0 0;
        last_push_time = none;
        ema_alpha = literal 2 1;
        min_delay = mul expected (literal 6 0);
        max_delay = literal 5 1;
        expected_interval = expected;
      }

  -- `interval > 0.001 && interval < self.expected_interval * 8.0`.
  unfoldable pub is_regular : AdaptiveDelay R → R → Bool
  is_regular d interval =
      lt (literal 1 3) interval && lt interval (mul d.expected_interval (literal 8 0))

  -- `old * (1.0 - alpha) + new * alpha`.
  unfoldable pub smooth : R → R → R → R
  smooth alpha old fresh = add (mul old (sub (literal 1 0) alpha)) (mul fresh alpha)

  -- The update of the statistics by one interval.
  unfoldable pub record_interval : AdaptiveDelay R → R → AdaptiveDelay R
  unfolding is_regular smooth
  record_interval d interval =
      if is_regular d interval
      then (let deviation = abs (sub interval d.avg_interval) in
          let avg = smooth d.ema_alpha d.avg_interval interval in
          record d {
            avg_interval = max_num avg (mul d.expected_interval (literal 5 1));
            jitter = smooth d.ema_alpha d.jitter deviation;
          })
      else d

  unfoldable pub record_arrival : AdaptiveDelay R → R → AdaptiveDelay R
  unfolding record_interval
  record_arrival d timestamp =
      let measured : AdaptiveDelay R = elim d.last_push_time [
        | none ↦ d
        | some last ↦ record_interval d (sub timestamp last)
      ] in
      record measured { last_push_time = some timestamp }

  -- The delay before it is clamped.
  unfoldable pub wanted_delay : AdaptiveDelay R → R
  wanted_delay d = add (mul d.avg_interval (literal 15 1)) (mul d.jitter (literal 2 0))

  unfoldable pub delay : AdaptiveDelay R → Outcome R
  unfolding wanted_delay
  delay d = clamp (wanted_delay d) d.min_delay d.max_delay
