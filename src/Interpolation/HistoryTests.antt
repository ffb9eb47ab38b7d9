-- ===== src/Interpolation/HistoryTests.antt =====
-- Examples of src/interpolation/history_buffer.rs, in unsigned thousandths.
use brilliance_network.Prelude.{
  ℕ, ◌≡◌, ◌↔◌, refl, false, some, List, [], ◌∷◌, arith, max, done, panic,
}
use brilliance_network.Fixed.{Fixed, thousandths, Float_Fixed, Narrow_Fixed, IsOrdered-Fixed}
use brilliance_network.Interpolation.HistoryBuffer
use brilliance_network.Interpolation.HistoryBuffer.{
  TimestampedSnapshot, SampleResult, empty, single, interpolate, extrapolate, len, is_empty, latest,
  bisect, test_at, partition_point, is_late, push, cleanup_loop, cleanup_before, factor, bracket,
  past_first, sample,
}
use brilliance_network.Interpolation.HistoryBuffer.Order.{IsSorted}
use brilliance_network.Interpolation.HistoryBuffer.Around.{last_two, sample_spec}
use brilliance_network.Interpolation.HistoryBuffer.Sample.{sample-eq-sample_spec}
use brilliance_network.Interpolation.HistoryBuffer.Results.{
  Brackets, IsAtEnd, sample-panic, sample-interpolate, sample-extrapolate,
}
use brilliance_network.Interpolation.HistoryBuffer.Cleanup.{sample-cleanup_before}
use brilliance_network.Interpolation.HistoryBuffer.Reach
use brilliance_network.Interpolation.HistoryBuffer.Reach.{pushes, cleans, run-new-IsValid}
use brilliance_network.Interpolation.HistoryBuffer.Window.{
  in_order, push_all, take_last, push_all-new,
}

abbrev at : ℕ → ℕ → TimestampedSnapshot ℕ Fixed
at v t = record { value = v; timestamp = thousandths t }

abbrev calls : List (Reach.Call ℕ Fixed)
calls = pushes 4 (thousandths 100) ∷ pushes 5 (thousandths 200) ∷ cleans (thousandths 300) 2 ∷ []

abbrev two : HistoryBuffer.HistoryBuffer ℕ Fixed
two = record { buffer = at 7 1000 ∷ at 9 2000 ∷ []; capacity = 3 }

abbrev three : HistoryBuffer.HistoryBuffer ℕ Fixed
three = record { buffer = at 7 1000 ∷ at 9 2000 ∷ at 8 3000 ∷ []; capacity = 3 }

two-IsSorted : IsSorted two.buffer
unfolding Float_Fixed
two-IsSorted = (refl, (refl, tt), (refl, tt, tt))

three-IsSorted : IsSorted three.buffer
unfolding Float_Fixed
three-IsSorted = (refl, (refl, (refl, tt)), (refl, (refl, tt), (refl, tt, tt)))

-- Halfway between two snapshots.
sample_halfway :
    sample {S = Fixed} two (thousandths 1500)
    ≡ done (interpolate (at 7 1000) (at 9 2000) (thousandths 500))
unfolding sample past_first bracket factor partition_point bisect test_at Float_Fixed Narrow_Fixed
sample_halfway = refl

-- At the time of the last snapshot.
sample_at_end : sample {S = Fixed} two (thousandths 2000) ≡ panic
unfolding sample past_first bracket factor partition_point bisect test_at Float_Fixed Narrow_Fixed
sample_at_end = refl

sample_beyond :
    sample {S = Fixed} two (thousandths 2250)
    ≡ done (extrapolate (at 7 1000) (at 9 2000) (thousandths 250))
unfolding sample past_first bracket factor partition_point bisect test_at Float_Fixed Narrow_Fixed
sample_beyond = refl

sample_early : sample {S = Fixed} two (thousandths 900) ≡ done (single (at 7 1000))
unfolding sample past_first bracket factor partition_point bisect test_at Float_Fixed Narrow_Fixed
sample_early = refl

pushed :
    push (push two 5 (thousandths 3000)) 6 (thousandths 2500)
    ≡ record two { buffer = at 7 1000 ∷ at 9 2000 ∷ at 5 3000 ∷ [] }
unfolding push is_late Float_Fixed
pushed = refl

pushed_full : (push three 5 (thousandths 3000)).buffer ≡ at 9 2000 ∷ at 8 3000 ∷ at 5 3000 ∷ []
unfolding push is_late Float_Fixed
pushed_full = refl

cleaned : (cleanup_before three (thousandths 2500) 2).buffer ≡ at 9 2000 ∷ at 8 3000 ∷ []
unfolding cleanup_before cleanup_loop Float_Fixed
cleaned = refl

counted : (len three ≡ 3) × (is_empty three ≡ false) × (latest three ≡ some (at 8 3000))
unfolding len is_empty latest
counted = (refl, refl, refl)

sample-eq-sample_spec_example :
    sample {S = Fixed} three (thousandths 2500) ≡ sample_spec three.buffer (thousandths 2500)
unfolding Float_Fixed
sample-eq-sample_spec_example =
    sample-eq-sample_spec IsOrdered-Fixed three (thousandths 2500) three-IsSorted refl

sample-panic_example :
    (sample {S = Fixed} two (thousandths 2000) ≡ panic) ↔ IsAtEnd two.buffer (thousandths 2000)
unfolding Float_Fixed
sample-panic_example = sample-panic IsOrdered-Fixed two (thousandths 2000) two-IsSorted refl

sample-interpolate_example :
    (before : TimestampedSnapshot ℕ Fixed) × (after : TimestampedSnapshot ℕ Fixed) × (sample
        {S = Fixed} three
        (thousandths 2500)
      ≡ done
          (interpolate before after (factor before.timestamp after.timestamp (thousandths 2500))))
    × Brackets three.buffer (thousandths 2500) before after
unfolding Float_Fixed last_two
sample-interpolate_example =
    sample-interpolate IsOrdered-Fixed three (at 7 1000) (at 9 2000) (at 8 3000 ∷ [])
      (thousandths 2500) refl three-IsSorted refl refl

sample-extrapolate_example :
    sample {S = Fixed} three (thousandths 3500)
    ≡ done (
        extrapolate (at 9 2000) (at 8 3000) (Float_Fixed.sub (thousandths 3500) (thousandths 3000)))
unfolding Float_Fixed last_two
sample-extrapolate_example =
    sample-extrapolate IsOrdered-Fixed three (at 7 1000) (at 9 2000) (at 8 3000 ∷ [])
      (thousandths 3500) refl three-IsSorted refl

sample-cleanup_before_example :
    sample {S = Fixed} (cleanup_before three (thousandths 2500) 2) (thousandths 2750)
    ≡ sample three (thousandths 2750)
unfolding Float_Fixed
sample-cleanup_before_example =
    sample-cleanup_before IsOrdered-Fixed three (thousandths 2500) (thousandths 2750) 2
      three-IsSorted (omega arith) refl

run-new-IsValid_example : Reach.IsValid 1 (Reach.run (HistoryBuffer.new 1) calls)
unfolding Float_Fixed
run-new-IsValid_example = run-new-IsValid IsOrdered-Fixed 1 calls (refl, (refl, (tt, tt)))

push_all-new_example :
    (push_all (HistoryBuffer.new 1) (at 4 100 ∷ at 5 200 ∷ at 6 50 ∷ [])).buffer
    ≡ take_last (max 1 1) (in_order (at 4 100 ∷ at 5 200 ∷ at 6 50 ∷ []))
push_all-new_example = push_all-new 1 (at 4 100 ∷ at 5 200 ∷ at 6 50 ∷ [])
