-- ===== src/Interpolation/HistoryBuffer/Order.antt =====
-- The timestamps of a history buffer: sorted, whatever is pushed and dropped.
use brilliance_network.Prelude.{
  ℕ, ◌≤◌, ◌≡◌, inl, inr, false, List, [], ◌∷◌, ◌++◌, max, arith, length, tail, length-append, All,
  All-append, Bool-cases,
}
use brilliance_network.Float.{Float, IsNum, IsOrdered, ◌⊑◌}
use brilliance_network.Interpolation.HistoryBuffer.{
  TimestampedSnapshot, HistoryBuffer, is_late, push, cleanup_loop,
}

module _ {T R : Type 0} ⦃f : Float R⦄ where
  -- No snapshot is later than one behind it, and none is NaN.
  abbrev pub IsSorted : List (TimestampedSnapshot T R) → Type 0
  IsSorted [] = Unit {0}
  IsSorted (x ∷ xs) = IsNum x.timestamp × All (λ y. x.timestamp ⊑ y.timestamp) xs × IsSorted xs

  pub tail-IsSorted : (xs : List (TimestampedSnapshot T R)) → IsSorted xs → IsSorted (tail xs)
  tail-IsSorted [] s = s
  tail-IsSorted (x ∷ xs) s = s.2

  All-tail :
      (P : TimestampedSnapshot T R → Type 0) (xs : List (TimestampedSnapshot T R))
      → All P xs
      → All P (tail xs)
  All-tail P [] a = a
  All-tail P (x ∷ xs) a = a.1

  -- The room that the buffer really has: a capacity of 0 still keeps one snapshot.
  pub length-push :
      (h : HistoryBuffer T R) (v : T) (t : R)
      → length h.buffer ≤ max h.capacity 1
      → length (push h v t).buffer ≤ max h.capacity 1
  unfolding push
  length-push h v t b = grind (arith, length-append)

  pub capacity-push : (h : HistoryBuffer T R) (v : T) (t : R) → (push h v t).capacity ≡ h.capacity
  unfolding push
  capacity-push h v t = ground arith

  pub length-cleanup_loop :
      (xs : List (TimestampedSnapshot T R)) (t : R) (k : ℕ)
      → length (cleanup_loop xs t k) ≤ length xs
  unfolding cleanup_loop
  length-cleanup_loop [] t k = omega arith
  length-cleanup_loop (x ∷ []) t k = omega arith
  length-cleanup_loop (x ∷ y ∷ r) t k = ground (arith, length-cleanup_loop (y ∷ r) t k)

  pub cleanup_loop-IsSorted :
      (xs : List (TimestampedSnapshot T R)) (t : R) (k : ℕ)
      → IsSorted xs
      → IsSorted (cleanup_loop xs t k)
  unfolding cleanup_loop
  cleanup_loop-IsSorted [] t k s = s
  cleanup_loop-IsSorted (x ∷ []) t k s = s
  cleanup_loop-IsSorted (x ∷ y ∷ r) t k s = ground (arith, cleanup_loop-IsSorted (y ∷ r) t k s.2)

  module _ (laws : IsOrdered R) where
    open laws use {le_trans, le_total, lt-eq-not-le, le-IsNum}

    IsSorted-snoc :
        (xs : List (TimestampedSnapshot T R)) (s : TimestampedSnapshot T R)
        → IsSorted xs
        → IsNum s.timestamp
        → All (λ x. x.timestamp ⊑ s.timestamp) xs
        → IsSorted (xs ++ s ∷ [])
    IsSorted-snoc [] s h n b = (n, tt, tt)
    IsSorted-snoc (x ∷ xs) s h n b =
        (h.0, All-append _ xs (s ∷ []) h.1 (b.0, tt), IsSorted-snoc xs s h.2 n b.1)

    -- What is not older than the last snapshot is not older than any.
    All-le-of-last :
        (xs : List (TimestampedSnapshot T R)) (t : R)
        → IsSorted xs
        → IsNum t
        → is_late xs t ≡ false
        → All (λ x. x.timestamp ⊑ t) xs
    unfolding is_late
    All-le-of-last [] t s n e = tt
    All-le-of-last (x ∷ []) t s n e = (ground (arith, lt-eq-not-le t x.timestamp n s.0), tt)
    All-le-of-last (x ∷ y ∷ r) t s n e =
        let below = All-le-of-last (y ∷ r) t s.2 n e in
        (le_trans x.timestamp y.timestamp t s.1.0 below.0, below)

    pub push-IsSorted :
        (h : HistoryBuffer T R) (v : T) (t : R)
        → IsSorted h.buffer
        → IsNum t
        → IsSorted (push h v t).buffer
    unfolding push
    push-IsSorted h v t s n = elim (Bool-cases (is_late h.buffer t)) [
      | inl late ↦ rw late s
      | inr on_time ↦
          let fresh : TimestampedSnapshot T R = record { value = v; timestamp = t } in
          let below = All-le-of-last h.buffer t s n on_time in
          rw on_time (
            ground (
              arith,
              IsSorted-snoc h.buffer fresh s n below,
              IsSorted-snoc (tail h.buffer) fresh (tail-IsSorted h.buffer s) n
                  (All-tail _ h.buffer below),
            ))
    ]
