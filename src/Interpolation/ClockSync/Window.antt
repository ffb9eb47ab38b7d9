-- ===== src/Interpolation/ClockSync/Window.antt =====
-- The window of samples: its size, and that recording a sample does not panic while no sample is
-- NaN.
use brilliance_network.Prelude.{
  ℕ, ◌-◌, ◌/◌, ◌≤◌, ◌<◌, ◌≡◌, refl, sym, ◌∙◌, inl, inr, true, false, List, [], ◌∷◌, ◌++◌, arith,
  max, ltb, lt→ltb, leb, if◌then◌else◌, length, length-append, tail, get_elem?_of_lt, All,
  All-append, Bool-cases, Outcome, done, index, ◌>>=◌,
}
use brilliance_network.Float.{Float, IsNum}
use brilliance_network.Interpolation.ClockSync.{
  ClockSync, remove_first, sorted, all_num, sort_by_partial_cmp, median, approach, record_sample,
  new,
}
use brilliance_network.Interpolation.ClockSync.Sorting.{length-sorted, All-all_num}

module _ {R : Type 0} ⦃f : Float R⦄ where
  pub record IsValid (c : ClockSync R) : Type 0 where
    pub bounded : length c.samples ≤ max c.max_samples 1
    pub begun : c.initialized ≡ ltb 0 (length c.samples)
    pub numbers : All IsNum c.samples

  -- The window once a sample has been added, where the oldest makes room for it.
  unfoldable pub slide : ClockSync R → R → List R
  slide c sample =
      (if leb c.max_samples (length c.samples) then tail c.samples else c.samples) ++ sample ∷ []

  pub median-done :
      (xs : List R)
      → All IsNum xs
      → 2 ≤ length xs
      → (m : R) × (median xs ≡ done m) × (index (sorted xs) (length xs / 2) ≡ done m)
  unfolding median sort_by_partial_cmp
  median-done xs a h =
      let middle : length (sorted xs) / 2 < length (sorted xs) = omega (arith, length-sorted xs) in
      let (m, e) = get_elem?_of_lt (sorted xs) (length (sorted xs) / 2) middle in
      let ordered : all_num xs ≡ true = All-all_num xs a in
      let long : ltb (length xs) 2 ≡ false = ground arith in
      (m, rw (long, ordered, e) refl, rw (← length-sorted xs, e) refl)

  All-tail : (P : R → Type 0) (xs : List R) → All P xs → All P (tail xs)
  All-tail P [] a = a
  All-tail P (x ∷ xs) a = a.1

  pub slide-IsNum :
      (c : ClockSync R) (x : R) → All IsNum c.samples → IsNum x → All IsNum (slide c x)
  unfolding slide
  slide-IsNum c x a n = elim (Bool-cases (leb c.max_samples (length c.samples))) [
    | inl e ↦ rw e (All-append IsNum (tail c.samples) (x ∷ []) (All-tail IsNum c.samples a) (n, tt))
    | inr e ↦ rw e (All-append IsNum c.samples (x ∷ []) a (n, tt))
  ]

  pub length-tail : (xs : List R) → length (tail xs) ≡ length xs - 1
  length-tail [] = omega arith
  length-tail (x ∷ xs) = omega arith

  length-slide :
      (c : ClockSync R) (x : R)
      → length c.samples ≤ max c.max_samples 1
      → (length (slide c x) ≤ max c.max_samples 1) × (1 ≤ length (slide c x))
  unfolding slide
  length-slide c x b = ground (
    arith,
    length-append c.samples (x ∷ []),
    length-append (tail c.samples) (x ∷ []),
    length-tail c.samples,
  )

  remove_first-done : (xs : List R) → ltb 0 (length xs) ≡ true → remove_first xs ≡ done (tail xs)
  unfolding remove_first
  remove_first-done [] e = ground arith
  remove_first-done (x ∷ xs) e = refl

  -- An initialised clock aims at the median of the window, or at the sample while that is short.
  pub record_sample_next :
      (c : ClockSync R) (local_time server_time : R)
      → c.initialized ≡ true
      → IsValid c
      → let x = f.sub local_time server_time in
        record_sample c local_time server_time ≡ (
          (if leb 3 (length (slide c x)) then median (slide c x) else done x) >>= λ target.
          done (record c { samples = slide c x; offset = approach c target }))
  unfolding record_sample slide
  record_sample_next c l s e v =
      let filled : ltb 0 (length c.samples) ≡ true = sym v.begun ∙ e in
      elim (Bool-cases (leb c.max_samples (length c.samples))) [
        | inl full ↦ rw (e, full, remove_first-done c.samples filled)
        | inr room ↦ rw (e, room)
      ]

  approach-IsValid :
      (c : ClockSync R) (x o : R)
      → c.initialized ≡ true
      → IsValid c
      → IsNum x
      → IsValid (record c { samples = slide c x; offset = o })
  approach-IsValid c x o e v n =
      let (top, bottom) = length-slide c x v.bounded in
      record {
        bounded = top;
        begun = e ∙ sym (lt→ltb 0 (length (slide c x)) bottom);
        numbers = slide-IsNum c x v.numbers n;
      }

  -- A clock is valid when its window is within `max_samples` (or one, if that is 0), free of NaN, and
  -- empty only before the first sample. Recording a sample that is not NaN in a valid clock does not
  -- panic, and leaves it valid and initialized.
  pub record_sample-IsValid :
      (c : ClockSync R) (local_time server_time : R)
      → IsValid c
      → IsNum (f.sub local_time server_time)
      → (d : ClockSync R) × (record_sample c local_time server_time ≡ done d)
        × IsValid d
        × (d.initialized ≡ true)
  record_sample-IsValid c l s v n =
      let x = f.sub l s in
      elim (Bool-cases c.initialized) [
        | inl e ↦
            let xs = slide c x in
            let step = record_sample_next c l s e v in
            elim (Bool-cases (leb 3 (length xs))) [
              | inl long ↦
                  let (m, found, _) = median-done xs (slide-IsNum c x v.numbers n) (ground arith) in
                  (
                    record c { samples = xs; offset = approach c m },
                    step ∙ rw (long, found) refl,
                    approach-IsValid c x (approach c m) e v n,
                    e,
                  )
              | inr short ↦ (
                record c { samples = xs; offset = approach c x },
                step ∙ rw short refl,
                approach-IsValid c x (approach c x) e v n,
                e,
              )
            ]
        | inr e ↦
            let xs = c.samples ++ x ∷ [] in
            let none_yet : length c.samples ≡ 0 = ground (arith, v.begun) in
            let one : length xs ≡ 1 = omega (arith, length-append c.samples (x ∷ [])) in
            (
              record c { samples = xs; offset = x; initialized = true },
              unfold record_sample in rw e refl,
              record {
                bounded = omega arith;
                begun = sym (lt→ltb 0 (length xs) (omega arith));
                numbers = All-append IsNum c.samples (x ∷ []) v.numbers (n, tt);
              },
              refl,
            )
      ]

  -- A new clock is in that state.
  pub new-IsValid : (max_samples : ℕ) → IsValid (new max_samples)
  unfolding new
  new-IsValid k = record { bounded = omega arith; begun = refl; numbers = tt }

  pub record_all : ClockSync R → List (R × R) → Outcome (ClockSync R)
  record_all c [] = done c
  record_all c ((l, s) ∷ rest) = record_sample c l s >>= λ d. record_all d rest

  record_all-IsValid :
      (c : ClockSync R) (times : List (R × R))
      → IsValid c
      → All (λ t. IsNum (f.sub t.0 t.1)) times
      → (d : ClockSync R) × (record_all c times ≡ done d) × IsValid d
  unfolding record_all
  record_all-IsValid c [] v a = (c, refl, v)
  record_all-IsValid c ((l, s) ∷ rest) v a =
      let (d, e, w, _) = record_sample-IsValid c l s v a.0 in
      let (last, h, u) = record_all-IsValid d rest w a.1 in (last, rw e h, u)

  -- A new clock fed with any times whose differences are not NaN never panics, and keeps its window
  -- within `max_samples` (or one, if that is 0), free of NaN, and empty only before the first
  -- sample.
  pub record_all-new-IsValid :
      (max_samples : ℕ) (times : List (R × R))
      → All (λ t. IsNum (f.sub t.0 t.1)) times
      → (d : ClockSync R) × (record_all (new max_samples) times ≡ done d) × IsValid d
  record_all-new-IsValid k times = record_all-IsValid (new k) times (new-IsValid k)
