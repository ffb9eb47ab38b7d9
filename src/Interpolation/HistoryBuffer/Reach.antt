-- ===== src/Interpolation/HistoryBuffer/Reach.antt =====
-- Every history buffer that a client can get to: a new one, then any pushes and cleanups.
use brilliance_network.Prelude.{ℕ, ◌≤◌, ◌≡◌, refl, ◌∙◌, List, [], ◌∷◌, max, arith, length, All}
use brilliance_network.Float.{Float, IsNum, IsOrdered}
use brilliance_network.Interpolation.HistoryBuffer.{HistoryBuffer, push, cleanup_before, new}
use brilliance_network.Interpolation.HistoryBuffer.Order.{
  IsSorted, length-push, length-cleanup_loop, capacity-push, push-IsSorted, cleanup_loop-IsSorted,
}

-- What a client does with its buffer.
pub data Call (T R : Type 0) : Type 0 where
  pushes : T → R → Call T R
  cleans : R → ℕ → Call T R

module _ {T R : Type 0} ⦃f : Float R⦄ where
  pub step : HistoryBuffer T R → Call T R → HistoryBuffer T R
  step h (pushes v t) = push h v t
  step h (cleans t k) = cleanup_before h t k

  pub run : HistoryBuffer T R → List (Call T R) → HistoryBuffer T R
  run h [] = h
  run h (c ∷ cs) = run (step h c) cs

  abbrev pub IsTimed : Call T R → Type 0
  IsTimed (pushes v t) = IsNum t
  IsTimed (cleans t k) = Unit {0}

  pub record IsValid (c : ℕ) (h : HistoryBuffer T R) : Type 0 where
    pub sorted : IsSorted h.buffer
    pub bounded : length h.buffer ≤ max c 1
    pub same : h.capacity ≡ c

  module _ (laws : IsOrdered R) where
    step-IsValid :
        (c : ℕ) (h : HistoryBuffer T R) (call : Call T R)
        → IsTimed call
        → IsValid c h
        → IsValid c (step h call)
    unfolding step cleanup_before
    step-IsValid c h (pushes v t) n i = record {
      sorted = push-IsSorted laws h v t i.sorted n;
      bounded = omega (arith, length-push h v t, i.bounded, i.same);
      same = capacity-push h v t ∙ i.same;
    }
    step-IsValid c h (cleans t k) n i = record {
      sorted = cleanup_loop-IsSorted h.buffer t k i.sorted;
      bounded = omega (arith, length-cleanup_loop h.buffer t k, i.bounded);
      same = i.same;
    }

    run-IsValid :
        (c : ℕ) (h : HistoryBuffer T R) (calls : List (Call T R))
        → All IsTimed calls
        → IsValid c h
        → IsValid c (run h calls)
    unfolding run
    run-IsValid c h [] a i = i
    run-IsValid c h (call ∷ calls) a i =
        run-IsValid c (step h call) calls a.1 (step-IsValid c h call a.0 i)

    -- After any pushes at times that are not NaN and any cleanups of a new buffer, its timestamps
    -- are sorted and it holds at most `capacity` snapshots, or one if that is 0.
    pub run-new-IsValid :
        (c : ℕ) (calls : List (Call T R)) → All IsTimed calls → IsValid c (run (new c) calls)
    run-new-IsValid c calls a =
        run-IsValid c (new c) calls a
          (unfold new in record { sorted = tt; bounded = omega arith; same = refl })
