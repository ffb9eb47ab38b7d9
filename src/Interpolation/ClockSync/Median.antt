-- ===== src/Interpolation/ClockSync/Median.antt =====
-- Where the median of the samples stands among them.
use mathlib.Core.List.{Perm}
use brilliance_network.Prelude.{
  ℕ, ◌/◌, ◌≤◌, ◌≡◌, refl, ◌∙◌, true, some, List, arith, leb, length, get_elem?, index, done,
}
use brilliance_network.Float.{Float, IsNum, IsOrdered}
use brilliance_network.Interpolation.ClockSync.{ClockSync, sorted, approach, record_sample}
use brilliance_network.Interpolation.ClockSync.Sorting.{
  IsAt, IsSorted-IsAt, sorted-IsSorted, sorted-Perm,
}
use brilliance_network.Interpolation.ClockSync.Window.{
  IsValid, slide, slide-IsNum, median-done, record_sample_next,
}

module _ {A : Type 0} where
  get_elem?_of_index : (xs : List A) (i : ℕ) (a : A) → index xs i ≡ done a → get_elem? xs i ≡ some a
  get_elem?_of_index xs i a e = ground arith

module _ {R : Type 0} ⦃f : Float R⦄ (laws : IsOrdered R) where
  -- In a valid clock that is initialized, a sample that is not NaN is added to the window, where the
  -- oldest makes room for it. With three or more samples then in the window, the new offset is the
  -- old one weighted by one less `ema_alpha`, and one of the samples weighted by `ema_alpha`. That
  -- sample stands in the middle: half of the window, rounded down, is not above it and stands before
  -- it, and none of the rest is below it.
  pub record_sample_median :
      (c : ClockSync R) (local_time server_time : R)
      → c.initialized ≡ true
      → IsValid c
      → IsNum (f.sub local_time server_time)
      → 3 ≤ length (slide c (f.sub local_time server_time))
      → let xs = slide c (f.sub local_time server_time) in
        (m : R) × (ordered : List R) × (record_sample c local_time server_time
          ≡ done (record c {
            samples = xs;
            offset =
                f.add (f.mul c.offset (f.sub (f.literal 1 0) c.ema_alpha)) (f.mul m c.ema_alpha);
          }))
        × Perm ordered xs
        × IsAt m (length xs / 2) ordered
  unfolding approach
  record_sample_median c l s e v n h =
      let xs = slide c (f.sub l s) in
      let numbers = slide-IsNum c (f.sub l s) v.numbers n in
      let (m, found, at) = median-done xs numbers (omega arith) in
      let long : leb 3 (length xs) ≡ true = ground arith in
      (
        m,
        sorted xs,
        record_sample_next c l s e v ∙ rw (long, found, approach) refl,
        sorted-Perm xs,
        IsSorted-IsAt (sorted xs) (length xs / 2) (sorted-IsSorted laws xs numbers)
            (get_elem?_of_index (sorted xs) (length xs / 2) m at),
      )
