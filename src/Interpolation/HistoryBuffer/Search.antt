-- ===== src/Interpolation/HistoryBuffer/Search.antt =====
-- `partition_point`, the binary search of `sample`, against a plain scan.
use brilliance_network.Prelude.{
  ℕ, zero, suc, ◌+◌, ◌-◌, ◌/◌, ◌≤◌, ◌<◌, ◌≡◌, refl, ◌⊎◌, inl, inr, Bool, false, List, [], ◌∷◌,
  arith, ltb, if◌then◌else◌, length, All, Bool-cases,
}
use brilliance_network.Interpolation.HistoryBuffer.{bisect, test_at, partition_point}

-- Where the test says `i < k`, the loop ends at the last place that passes, or at `base`.
bisect_lem :
    (test : ℕ → Bool) (k n fuel base size : ℕ)
    → ((i : ℕ) → i < n → test i ≡ ltb i k)
    → 0 < size
    → size ≤ suc fuel
    → base + size ≤ n
    → k ≤ base + size
    → (base ≡ 0) ⊎ (base < k)
    → let b = bisect test fuel base size in (b < n) × (k ≤ suc b) × ((b ≡ 0) ⊎ (b < k))
unfolding bisect
bisect_lem test k n zero base size t p q r u v = ground arith
bisect_lem test k n (suc fuel) base size t p q r u v = ground (
  arith,
  t (base + size / 2),
  bisect_lem test k n fuel base (size - size / 2) t,
  bisect_lem test k n fuel (base + size / 2) (size - size / 2) t,
)

module _ {A : Type 0} where
  -- How many elements from the front on pass the test.
  unfoldable pub prefix_len : (A → Bool) → List A → ℕ
  prefix_len p [] = 0
  prefix_len p (x ∷ xs) = if p x then suc (prefix_len p xs) else 0

  -- Nothing behind an element that fails passes.
  abbrev pub IsPartitioned : (A → Bool) → List A → Type 0
  IsPartitioned p [] = Unit {0}
  IsPartitioned p (x ∷ xs) = (p x ≡ false → All (λ y. p y ≡ false) xs) × IsPartitioned p xs

  prefix_len-le : (p : A → Bool) (xs : List A) → prefix_len p xs ≤ length xs
  unfolding prefix_len
  prefix_len-le p [] = omega arith
  prefix_len-le p (x ∷ xs) = ground (arith, prefix_len-le p xs)

  test_at_fails :
      (p : A → Bool) (xs : List A) (i : ℕ) → All (λ y. p y ≡ false) xs → test_at p xs i ≡ false
  unfolding test_at
  test_at_fails p [] i a = refl
  test_at_fails p (x ∷ xs) zero a = a.0
  test_at_fails p (x ∷ xs) (suc i) a = test_at_fails p xs i a.1

  test_at-eq-ltb :
      (p : A → Bool) (xs : List A) (i : ℕ)
      → IsPartitioned p xs
      → test_at p xs i ≡ ltb i (prefix_len p xs)
  unfolding test_at prefix_len
  test_at-eq-ltb p [] i h = ground arith
  test_at-eq-ltb p (x ∷ xs) zero h = ground arith
  test_at-eq-ltb p (x ∷ xs) (suc i) h = elim (Bool-cases (p x)) [
    | inl e ↦ rw e (ground (arith, test_at-eq-ltb p xs i h.1))
    | inr e ↦ rw e (ground (arith, test_at_fails p xs i (h.0 e)))
  ]

  -- On a partitioned list the binary search finds the end of the passing prefix.
  pub partition_point-eq-prefix_len :
      (p : A → Bool) (xs : List A) → IsPartitioned p xs → partition_point p xs ≡ prefix_len p xs
  unfolding partition_point prefix_len
  partition_point-eq-prefix_len p [] h = refl
  partition_point-eq-prefix_len p (x ∷ xs) h =
      let l = length (x ∷ xs) in
      let found =
        bisect_lem (test_at p (x ∷ xs)) (prefix_len p (x ∷ xs)) l l 0 l
          (λ i _. test_at-eq-ltb p (x ∷ xs) i h) (omega arith) (omega arith) (omega arith)
          (omega (arith, prefix_len-le p (x ∷ xs))) (inl refl) in
      ground (arith, found, test_at-eq-ltb p (x ∷ xs) (bisect (test_at p (x ∷ xs)) l 0 l) h)
