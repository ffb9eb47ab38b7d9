-- ===== src/Interpolation/HistoryBuffer.antt =====
-- src/interpolation/history_buffer.rs. A `VecDeque` is the list of its elements, front first.
pub mod Order
pub mod Search
pub mod Around
pub mod Sample
pub mod Results
pub mod Cleanup
pub mod Reach
pub mod Window
use brilliance_network.Prelude.{
  ℕ, zero, suc, ◌+◌, ◌-◌, ◌/◌, Bool, false, ◌&&◌, Option, none, some, List, [], ◌∷◌, ◌++◌, ltb, leb,
  ◌==◌, if◌then◌else◌, length, get_elem?, get_last?, tail, Outcome, done, ◌>>=◌, index, usize_sub,
}
use brilliance_network.Float.{Float, Narrow}

pub record TimestampedSnapshot (T R : Type 0) : Type 0 where
  pub value : T
  pub timestamp : R

pub record HistoryBuffer (T R : Type 0) : Type 0 where
  pub buffer : List (TimestampedSnapshot T R)
  pub capacity : ℕ

pub data SampleResult (T R S : Type 0) : Type 0 where
  empty : SampleResult T R S
  single : TimestampedSnapshot T R → SampleResult T R S
  interpolate : TimestampedSnapshot T R → TimestampedSnapshot T R → S → SampleResult T R S
  extrapolate : TimestampedSnapshot T R → TimestampedSnapshot T R → R → SampleResult T R S

module _ {T R : Type 0} where
  pub new : ℕ → HistoryBuffer T R
  new capacity = record { buffer = []; capacity = capacity }

  unfoldable pub len : HistoryBuffer T R → ℕ
  len h = length h.buffer

  unfoldable pub is_empty : HistoryBuffer T R → Bool
  is_empty h = length h.buffer == 0

  unfoldable pub latest : HistoryBuffer T R → Option (TimestampedSnapshot T R)
  latest h = get_last? h.buffer

-- The loop of `slice::binary_search_by`, on which `partition_point` stands: `base` and `size` are
-- its variables, and each round halves `size`.
unfoldable pub bisect : (ℕ → Bool) → (fuel base size : ℕ) → ℕ
bisect test zero base size = base
bisect test (suc fuel) base size =
    let half = size / 2 in
    let more = bisect test fuel (if test (base + half) then base + half else base) (size - half) in
    if leb size 1 then base else more

module _ {A : Type 0} where
  unfoldable pub test_at : (A → Bool) → List A → ℕ → Bool
  test_at p xs i = elim (get_elem? xs i) [ none ↦ false | some x ↦ p x ]

  -- `partition_point`. That of a `VecDeque` first chooses one of the two slices that it is made of,
  -- which is the same search where the elements that pass stand in front.
  unfoldable pub partition_point : (A → Bool) → List A → ℕ
  unfolding bisect test_at
  partition_point p xs =
      let base = bisect (test_at p xs) (length xs) 0 (length xs) in
      if length xs == 0 then 0 else base + (if test_at p xs base then 1 else 0)

module _ {T R : Type 0} ⦃f : Float R⦄ where
  -- `timestamp < last.timestamp`, where there is a last snapshot.
  unfoldable pub is_late : List (TimestampedSnapshot T R) → R → Bool
  is_late buffer timestamp = elim (get_last? buffer) [
    | none ↦ false
    | some last ↦ f.lt timestamp last.timestamp
  ]

  unfoldable pub push : HistoryBuffer T R → T → R → HistoryBuffer T R
  unfolding is_late
  push h value timestamp =
      if is_late h.buffer timestamp
      then h
      else (let kept = if leb h.capacity (length h.buffer) then tail h.buffer else h.buffer in
          record h { buffer = kept ++ record { value = value; timestamp = timestamp } ∷ [] })

  unfoldable pub cleanup_loop :
      List (TimestampedSnapshot T R) → R → ℕ → List (TimestampedSnapshot T R)
  cleanup_loop [] time min_keep = []
  cleanup_loop (x ∷ []) time min_keep = x ∷ []
  cleanup_loop (x ∷ y ∷ rest) time min_keep =
      if ltb min_keep (length (x ∷ y ∷ rest)) && f.lt y.timestamp time
      then cleanup_loop (y ∷ rest) time min_keep
      else x ∷ y ∷ rest

  unfoldable pub cleanup_before : HistoryBuffer T R → R → ℕ → HistoryBuffer T R
  unfolding cleanup_loop
  cleanup_before h time min_keep = record h { buffer = cleanup_loop h.buffer time min_keep }

module _ {R S : Type 0} ⦃f : Float R⦄ ⦃g : Float S⦄ ⦃n : Narrow R S⦄ where
  -- The interpolation factor of `time` between two timestamps.
  unfoldable pub factor : R → R → R → S
  factor before after time =
      let total = f.sub after before in
      if f.lt (f.literal 0 0) total
      then n.narrow (f.div (f.sub time before) total)
      else g.literal 0 0

module _ {T R S : Type 0} ⦃f : Float R⦄ ⦃g : Float S⦄ ⦃n : Narrow R S⦄ where
  -- The last part of `sample`, from the binary search on.
  unfoldable pub bracket : List (TimestampedSnapshot T R) → R → Outcome (SampleResult T R S)
  bracket buffer time = do
    let idx = partition_point (λ s. f.le s.timestamp time) buffer
    i ← usize_sub idx 1
    before ← index buffer i
    after ← index buffer idx
    done (interpolate before after (factor before.timestamp after.timestamp time))

  unfoldable pub past_first : List (TimestampedSnapshot T R) → R → Outcome (SampleResult T R S)
  past_first buffer time = do
    let last_idx = length buffer - 1
    last ← index buffer last_idx
    if f.lt last.timestamp time
        then (do
          prev ← index buffer (last_idx - 1)
          done (extrapolate prev last (f.sub time last.timestamp)))
        else bracket buffer time

  unfoldable pub sample : HistoryBuffer T R → R → Outcome (SampleResult T R S)
  unfolding past_first bracket
  sample h time =
      if length h.buffer == 0
      then done empty
      else if length h.buffer == 1
      then (do first ← index h.buffer 0; done (single first))
      else (do
        first ← index h.buffer 0
        if f.le time first.timestamp then done (single first) else past_first h.buffer time)
