-- ===== src/Interpolation/ClientTests.antt =====
-- Examples of the delay, the clock and the correction of src/interpolation, in unsigned thousandths.
use brilliance_network.Prelude.{
  ℕ, ◌+◌, ◌-◌, ◌*◌, ◌/◌, ◌≡◌, ◌↔◌, refl, ◌⊎◌, true, false, none, some, List, [], ◌∷◌, arith,
  if◌then◌else◌, ltb, length, done, panic,
}
use mathlib.Core.List.{Perm}
use brilliance_network.Float.{◌⊑◌, ◌⊏◌, max_num, clamp}
use brilliance_network.Fixed.{
  Fixed, nan, thousandths, test, Float_Fixed, Narrow_Fixed, IsOrdered-Fixed,
}
use brilliance_network.Interpolation.AdaptiveDelay
use brilliance_network.Interpolation.AdaptiveDelay.{
  record_interval, is_regular, smooth, record_arrival, wanted_delay, delay,
}
use brilliance_network.Interpolation.AdaptiveDelay.Bounds.{
  record_all, IsFloored, delay-panic, record_all-new-IsFloored,
}
use brilliance_network.Interpolation.AdaptiveDelay.Estimate.{
  intervals_from, intervals, estimate, wanted, wanted_after, delay_bounds,
}
use brilliance_network.Interpolation.ClockSync
use brilliance_network.Interpolation.ClockSync.{
  remove_first, insert, sorted, all_num, sort_by_partial_cmp, median, approach, record_sample,
  server_to_local, get_offset, is_initialized,
}
use brilliance_network.Interpolation.ClockSync.Sorting.{IsAt}
use brilliance_network.Interpolation.ClockSync.Window
use brilliance_network.Interpolation.ClockSync.Window.{
  slide, record_sample-IsValid, record_all-new-IsValid,
}
use brilliance_network.Interpolation.ClockSync.Median.{record_sample_median}
use brilliance_network.Interpolation.ClockSync.NotANumber.{record_sample_nan}
use brilliance_network.Interpolation.VisualCorrection
use brilliance_network.Interpolation.VisualCorrection.{
  Diffable, IsDifference, decay_factor, has_active_correction, clear, record_correction, apply,
  update,
}
use brilliance_network.Interpolation.VisualCorrection.Errors
use brilliance_network.Interpolation.VisualCorrection.Errors.{
  records, updates, clears, update_all, decayed, FadesOut, run-new_correction-IsValid,
  apply-record_correction, update_all_error,
}

abbrev tps_20 : Fixed
tps_20 = thousandths 20000

-- 50 ms, then 60 ms, at 20 ticks per second.
delay_arrivals :
    delay (
      record_all
        (AdaptiveDelay.new tps_20)
        (thousandths 1000 ∷ thousandths 1050 ∷ thousandths 1110 ∷ []))
    ≡ done (thousandths 300)
unfolding delay wanted_delay record_all record_arrival record_interval is_regular smooth
    AdaptiveDelay.new clamp max_num Float_Fixed
delay_arrivals = refl

-- A server with 10 ticks per second.
delay_slow : delay (AdaptiveDelay.new (thousandths 10000)) ≡ panic
unfolding delay wanted_delay AdaptiveDelay.new clamp Float_Fixed
delay_slow = refl

delay-panic_example :
    (delay (record_all (AdaptiveDelay.new (thousandths 10000)) (thousandths 5 ∷ [])) ≡ panic) ↔ (
      Float_Fixed.le
        (Float_Fixed.mul
          (Float_Fixed.div (Float_Fixed.literal 1 0) (thousandths 10000))
          (Float_Fixed.literal 6 0))
        (Float_Fixed.literal 5 1)
      ≡ false)
delay-panic_example = delay-panic (thousandths 10000) (thousandths 5 ∷ [])

abbrev late : AdaptiveDelay.AdaptiveDelay Fixed
late = record {
  avg_interval = thousandths 60;
  jitter = thousandths 150;
  last_push_time = none;
  ema_alpha = thousandths 200;
  min_delay = thousandths 300;
  max_delay = thousandths 500;
  expected_interval = thousandths 50;
}

-- Intervals of 60 and 5000 ms, of which the second does not count.
abbrev times : List Fixed
times = thousandths 1000 ∷ thousandths 1060 ∷ thousandths 6060 ∷ []

-- An average of 52 ms, and a jitter of 2.
wanted_times : wanted_after tps_20 times ≡ thousandths 82
unfolding wanted_after wanted estimate intervals intervals_from max_num Float_Fixed
wanted_times = refl

delay_bounds_example :
    (x : Fixed) × (delay (record_all (AdaptiveDelay.new tps_20) times) ≡ done x)
    × (thousandths 300 ⊑ x)
    × (x ⊑ thousandths 500)
    × ((x ≡ wanted_after tps_20 times)
        ⊎ ((wanted_after tps_20 times ⊏ thousandths 300) × (x ≡ thousandths 300))
        ⊎ ((thousandths 500 ⊏ wanted_after tps_20 times) × (x ≡ thousandths 500)))
unfolding wanted_after wanted estimate intervals intervals_from max_num Float_Fixed
delay_bounds_example = delay_bounds IsOrdered-Fixed tps_20 times refl refl

record_all-new-IsFloored_example :
    IsFloored (record_all (AdaptiveDelay.new tps_20) (thousandths 1000 ∷ thousandths 1010 ∷ []))
unfolding Float_Fixed
record_all-new-IsFloored_example =
    record_all-new-IsFloored IsOrdered-Fixed tps_20 (thousandths 1000 ∷ thousandths 1010 ∷ []) refl

abbrev clock : ClockSync.ClockSync Fixed
clock = record {
  samples = thousandths 30 ∷ thousandths 10 ∷ [];
  max_samples = 3;
  offset = thousandths 40;
  initialized = true;
  ema_alpha = thousandths 100;
}

clock-IsValid : Window.IsValid clock
unfolding Float_Fixed
clock-IsValid = record { bounded = omega arith; begun = refl; numbers = (refl, (refl, tt)) }

-- The median of 30, 10 and 20 is 20.
recorded :
    record_sample clock (thousandths 1020) (thousandths 1000)
    ≡ done (record clock {
      samples = thousandths 30 ∷ thousandths 10 ∷ thousandths 20 ∷ [];
      offset = thousandths 38;
    })
unfolding record_sample remove_first median sort_by_partial_cmp all_num sorted insert approach
    Float_Fixed
recorded = refl

converted :
    (server_to_local clock (thousandths 100) ≡ thousandths 140)
    × (get_offset clock ≡ thousandths 40)
    × (is_initialized clock ≡ true)
    × (is_initialized (ClockSync.new {R = Fixed} 5) ≡ false)
unfolding server_to_local get_offset is_initialized ClockSync.new Float_Fixed
converted = (refl, refl, refl, refl)

record_sample-IsValid_example :
    (d : ClockSync.ClockSync Fixed) × (record_sample clock (thousandths 1020) (thousandths 1000)
      ≡ done d)
    × Window.IsValid d
    × (d.initialized ≡ true)
unfolding Float_Fixed
record_sample-IsValid_example =
    record_sample-IsValid clock (thousandths 1020) (thousandths 1000) clock-IsValid refl

record_all-new-IsValid_example :
    (d : ClockSync.ClockSync Fixed) × (Window.record_all
        (ClockSync.new 1)
        ((thousandths 3, thousandths 1) ∷ (thousandths 6, thousandths 3) ∷ [])
      ≡ done d)
    × Window.IsValid d
unfolding Float_Fixed
record_all-new-IsValid_example =
    record_all-new-IsValid 1 ((thousandths 3, thousandths 1) ∷ (thousandths 6, thousandths 3) ∷ [])
      (refl, (refl, tt))

record_sample_median_example :
    let xs = slide clock (Float_Fixed.sub (thousandths 1020) (thousandths 1000)) in
    (m : Fixed) × (ordered : List Fixed) × (record_sample clock
        (thousandths 1020)
        (thousandths 1000)
      ≡ done (record clock {
        samples = xs;
        offset =
            Float_Fixed.add
              (Float_Fixed.mul
                (thousandths 40)
                (Float_Fixed.sub (Float_Fixed.literal 1 0) (thousandths 100)))
              (Float_Fixed.mul m (thousandths 100));
      }))
    × Perm ordered xs
    × IsAt m (length xs / 2) ordered
unfolding Float_Fixed slide
record_sample_median_example =
    record_sample_median IsOrdered-Fixed clock (thousandths 1020) (thousandths 1000) refl
      clock-IsValid refl (omega arith)

record_sample_nan_example : record_sample clock (thousandths 1020) nan ≡ panic
unfolding Float_Fixed
record_sample_nan_example =
    record_sample_nan clock (thousandths 1020) nan clock-IsValid refl (omega arith) (omega arith)

-- A position on a line; a difference keeps both positions.
abbrev scaled : ℕ × ℕ → Fixed → ℕ × ℕ
scaled e nan = e
scaled e (thousandths k) = (e.0 * k / 1000, e.1 * k / 1000)

abbrev line : Diffable ℕ (ℕ × ℕ) Fixed
line = record {
  diff = λ x y. (x, y);
  apply_delta = λ y e. y + e.0 - e.1;
  scale_delta = scaled;
  delta_is_negligible = λ e limit. test ltb (thousandths ((e.0 - e.1) + (e.1 - e.0))) limit;
}

IsDifference-line : IsDifference line
IsDifference-line = record { apply_delta-diff = λ x y. omega arith }

abbrev fresh : VisualCorrection.VisualCorrection (ℕ × ℕ) Fixed
fresh = record { error = none; decay_rate = thousandths 8000; threshold = thousandths 3 }

-- The error halves with every frame, until it is below the threshold.
corrected :
    let c = record_correction line fresh 28 20 in
    (apply line c 20 ≡ 28)
    × (apply line (update line c (thousandths 16)) 20 ≡ 24)
    × (has_active_correction (update line c (thousandths 16)) ≡ true)
    × (has_active_correction (update_all line c (thousandths 16 ∷ thousandths 16 ∷ [])) ≡ false)
    × (has_active_correction (clear c) ≡ false)
unfolding record_correction apply update update_all decay_factor has_active_correction clear
    Float_Fixed
corrected = (refl, refl, refl, refl, refl)

run-new_correction-IsValid_example : Errors.IsValid line (thousandths 8000) (thousandths 3) (
    Errors.run line
      (VisualCorrection.new (thousandths 8000) (thousandths 3))
      (records 28 20 ∷ updates (thousandths 16) ∷ clears ∷ []))
run-new_correction-IsValid_example =
    run-new_correction-IsValid line (thousandths 8000) (thousandths 3)
      (records 28 20 ∷ updates (thousandths 16) ∷ clears ∷ [])

apply-record_correction_example : apply line (record_correction line fresh 28 20) 20 ≡ (
    if line.delta_is_negligible (line.diff 28 20) (thousandths 3) then apply line fresh 20 else 28)
apply-record_correction_example = apply-record_correction line IsDifference-line fresh 28 20

abbrev held : VisualCorrection.VisualCorrection (ℕ × ℕ) Fixed
held = record fresh { error = some (28, 20) }

update_all_error_example :
    (FadesOut line (thousandths 8000) (thousandths 3) (28, 20) (thousandths 16 ∷ [])
      × ((update_all line held (thousandths 16 ∷ [])).error ≡ none))
    ⊎ (¬ FadesOut line (thousandths 8000) (thousandths 3) (28, 20) (thousandths 16 ∷ [])
        × ((update_all line held (thousandths 16 ∷ [])).error
            ≡ some (decayed line (thousandths 8000) (28, 20) (thousandths 16 ∷ []))))
update_all_error_example = update_all_error line held (28, 20) (thousandths 16 ∷ []) refl
