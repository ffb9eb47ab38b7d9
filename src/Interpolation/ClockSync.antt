-- ===== src/Interpolation/ClockSync.antt =====
-- src/interpolation/clock_sync.rs: the offset between the local clock and the server's.
pub mod Sorting
pub mod Window
pub mod Median
pub mod NotANumber
use brilliance_network.Prelude.{
  ℕ, ◌/◌, Bool, true, false, not, ◌&&◌, List, [], ◌∷◌, ◌++◌, ltb, leb, if◌then◌else◌, length,
  Outcome, done, panic, ◌>>=◌, index,
}
use brilliance_network.Float.{Float}

pub record ClockSync (R : Type 0) : Type 0 where
  pub samples : List R
  pub max_samples : ℕ
  pub offset : R
  pub initialized : Bool
  pub ema_alpha : R

-- `Vec::remove(0)`.
unfoldable pub remove_first {ℓ} : {A : Type ℓ} → List A → Outcome (List A)
remove_first [] = panic
remove_first (x ∷ xs) = done xs

module _ {R : Type 0} ⦃f : Float R⦄ where
  open f use {le, add, sub, mul, literal}

  unfoldable pub insert : R → List R → List R
  insert x [] = x ∷ []
  insert x (y ∷ ys) = if le x y then x ∷ y ∷ ys else y ∷ insert x ys

  unfoldable pub sorted : List R → List R
  unfolding insert
  sorted [] = []
  sorted (x ∷ xs) = insert x (sorted xs)

  unfoldable pub all_num : List R → Bool
  all_num [] = true
  all_num (x ∷ xs) = le x x && all_num xs

  -- `sort_by(|a, b| a.partial_cmp(b).unwrap())`: a stable sort, which compares each of two or more
  -- elements with another, and whose comparison panics on NaN.
  unfoldable pub sort_by_partial_cmp : List R → Outcome (List R)
  sort_by_partial_cmp xs =
      if ltb (length xs) 2 then done xs else if all_num xs then done (sorted xs) else panic

  unfoldable pub median : List R → Outcome R
  median samples = do ordered ← sort_by_partial_cmp samples; index ordered (length ordered / 2)

  unfoldable pub new : ℕ → ClockSync R
  new max_samples = record {
    samples = [];
    max_samples = max_samples;
    offset = literal 0 0;
    initialized = false;
    ema_alpha = literal 1 1;
  }

  -- `self.offset * (1.0 - self.ema_alpha) + target * self.ema_alpha`.
  unfoldable pub approach : ClockSync R → R → R
  approach c target = add (mul c.offset (sub (literal 1 0) c.ema_alpha)) (mul target c.ema_alpha)

  unfoldable pub record_sample : ClockSync R → R → R → Outcome (ClockSync R)
  record_sample c local_time server_time =
      let sample = sub local_time server_time in
      if not c.initialized
      then done
          (record c { offset = sample; initialized = true; samples = c.samples ++ sample ∷ [] })
      else (do
        kept ←
            if leb c.max_samples (length c.samples) then remove_first c.samples else done c.samples
        let samples = kept ++ sample ∷ []
        target ← if leb 3 (length samples) then median samples else done sample
        done (record c { samples = samples; offset = approach c target }))

  unfoldable pub server_to_local : ClockSync R → R → R
  server_to_local c server_time = add server_time c.offset

  unfoldable pub get_offset : ClockSync R → R
  get_offset c = c.offset

  unfoldable pub is_initialized : ClockSync R → Bool
  is_initialized c = c.initialized
