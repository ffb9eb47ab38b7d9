-- ===== src/Interpolation/HistoryBuffer/Around.antt =====
-- What `sample` finds, described by one pass along the timestamps.
use brilliance_network.Prelude.{
  suc, ◌≡◌, refl, some, List, [], ◌∷◌, if◌then◌else◌, length, get_elem?, All, Outcome, done, panic,
}
use brilliance_network.Float.{Float, Narrow}
use brilliance_network.Interpolation.HistoryBuffer.{
  TimestampedSnapshot, SampleResult, empty, single, interpolate, extrapolate, factor,
}

module _ {A : Type 0} where
  -- The last two of at least two elements.
  unfoldable pub last_two : A → A → List A → A × A
  last_two x y [] = (x, y)
  last_two x y (z ∷ r) = last_two y z r

  pub get_elem?-last :
      (x y : A) (r : List A) → get_elem? (x ∷ y ∷ r) (suc (length r)) ≡ some (last_two x y r).1
  unfolding last_two
  get_elem?-last x y [] = refl
  get_elem?-last x y (z ∷ r) = get_elem?-last y z r

  pub get_elem?-prev :
      (x y : A) (r : List A) → get_elem? (x ∷ y ∷ r) (length r) ≡ some (last_two x y r).0
  unfolding last_two
  get_elem?-prev x y [] = refl
  get_elem?-prev x y (z ∷ r) = get_elem?-prev y z r

  pub last_two-All : (P : A → Type 0) (x y : A) (r : List A) → All P (y ∷ r) → P (last_two x y r).1
  unfolding last_two
  last_two-All P x y [] a = a.0
  last_two-All P x y (z ∷ r) a = last_two-All P y z r a.1

module _ {T R S : Type 0} ⦃f : Float R⦄ ⦃g : Float S⦄ ⦃n : Narrow R S⦄ where
  -- The snapshots around `time`, looked for from the front; `time` is not before the first of them.
  unfoldable pub walk :
      R
      → TimestampedSnapshot T R
      → TimestampedSnapshot T R
      → List (TimestampedSnapshot T R)
      → Outcome (SampleResult T R S)
  walk time x y [] =
      if f.lt y.timestamp time
      then done (extrapolate x y (f.sub time y.timestamp))
      else if f.le y.timestamp time
      then panic
      else done (interpolate x y (factor x.timestamp y.timestamp time))
  walk time x y (z ∷ r) =
      if f.le y.timestamp time
      then walk time y z r
      else done (interpolate x y (factor x.timestamp y.timestamp time))

  unfoldable pub sample_spec : List (TimestampedSnapshot T R) → R → Outcome (SampleResult T R S)
  unfolding walk
  sample_spec [] time = done empty
  sample_spec (x ∷ []) time = done (single x)
  sample_spec (x ∷ y ∷ r) time = if f.le time x.timestamp then done (single x) else walk time x y r
