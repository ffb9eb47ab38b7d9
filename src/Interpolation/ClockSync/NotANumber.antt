-- ===== src/Interpolation/ClockSync/NotANumber.antt =====
-- What a sample that is NaN does to a clock.
use brilliance_network.Prelude.{
  ◌≤◌, ◌≡◌, refl, ◌∙◌, true, false, List, [], ◌∷◌, ◌++◌, arith, ltb, lt→ltb, leb, length,
  length-append, tail, panic,
}
use brilliance_network.Float.{Float}
use brilliance_network.Interpolation.ClockSync.{
  ClockSync, all_num, sort_by_partial_cmp, median, record_sample,
}
use brilliance_network.Interpolation.ClockSync.Window.{
  IsValid, slide, length-tail, record_sample_next,
}

module _ {R : Type 0} ⦃f : Float R⦄ where
  all_num-append_nan : (xs : List R) (x : R) → f.le x x ≡ false → all_num (xs ++ x ∷ []) ≡ false
  unfolding all_num
  all_num-append_nan [] x h = ground arith
  all_num-append_nan (y ∷ ys) x h = ground (arith, all_num-append_nan ys x h)

  median_nan :
      (xs : List R) (x : R) → f.le x x ≡ false → 2 ≤ length xs → median (xs ++ x ∷ []) ≡ panic
  unfolding median sort_by_partial_cmp
  median_nan xs x h two =
      let long : ltb (length (xs ++ x ∷ [])) 2 ≡ false =
        ground (arith, length-append xs (x ∷ [])) in
      rw (long, all_num-append_nan xs x h) refl

  slide_nan :
      (c : ClockSync R) (x : R)
      → f.le x x ≡ false
      → 3 ≤ c.max_samples
      → 2 ≤ length c.samples
      → (leb 3 (length (slide c x)) ≡ true) × (median (slide c x) ≡ panic)
  unfolding slide
  slide_nan c x h room two = ground (
    arith,
    length-append c.samples (x ∷ []),
    length-append (tail c.samples) (x ∷ []),
    length-tail c.samples,
    median_nan c.samples x h,
    median_nan (tail c.samples) x h,
  )

  -- In a valid clock with room for three samples and with two in its window, recording a sample that
  -- is NaN panics.
  pub record_sample_nan :
      (c : ClockSync R) (local_time server_time : R)
      → IsValid c
      → f.le (f.sub local_time server_time) (f.sub local_time server_time) ≡ false
      → 3 ≤ c.max_samples
      → 2 ≤ length c.samples
      → record_sample c local_time server_time ≡ panic
  record_sample_nan c l s v h room h2 =
      let (long, fails) = slide_nan c (f.sub l s) h room h2 in
      let begun : c.initialized ≡ true = v.begun ∙ lt→ltb 0 (length c.samples) (omega arith) in
      record_sample_next c l s begun v ∙ rw (long, fails) refl
