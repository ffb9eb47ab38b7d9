-- ===== src/Tokio/Entries.antt =====
-- The `HashMap` of src/tokio/server.rs as the list of its entries: entries with different keys, put in
-- and taken out.
use mathlib.Core.List.{append_assoc}
use brilliance_network.Prelude.{
  ℕ, ◌<◌, ◌≡◌, ◌≢◌, refl, sym, ap, subst, ◌∙◌, Option, none, some, List, [], ◌∷◌, ◌++◌, ◌==◌, arith,
  if◌then◌else◌, All, All-append,
}

module _ {V : Type 0} where
  unfoldable pub insert : ℕ → V → List (ℕ × V) → List (ℕ × V)
  insert k v [] = (k, v) ∷ []
  insert k v ((j, w) ∷ m) = if j == k then (k, v) ∷ m else (j, w) ∷ insert k v m

  unfoldable pub remove : ℕ → List (ℕ × V) → List (ℕ × V)
  remove k [] = []
  remove k ((j, w) ∷ m) = if j == k then m else (j, w) ∷ remove k m

  unfoldable pub lookup : ℕ → List (ℕ × V) → Option V
  lookup k [] = none
  lookup k ((j, w) ∷ m) = if j == k then some w else lookup k m

  abbrev pub NotKey : ℕ → List (ℕ × V) → Type 0
  NotKey k m = All (λ e. e.0 ≢ k) m

  abbrev pub Distinct : List (ℕ × V) → Type 0
  Distinct [] = Unit {0}
  Distinct (e ∷ m) = NotKey e.0 m × Distinct m

  pub insert-fresh :
      (k : ℕ) (v : V) (m : List (ℕ × V)) → NotKey k m → insert k v m ≡ m ++ (k, v) ∷ []
  unfolding insert
  insert-fresh k v [] n = refl
  insert-fresh k v ((j, w) ∷ m) n = ground (arith, insert-fresh k v m n.1, n.0)

  pub lookup-middle :
      (k : ℕ) (v : V) (pre m : List (ℕ × V)) → NotKey k pre → lookup k (pre ++ (k, v) ∷ m) ≡ some v
  unfolding lookup
  lookup-middle k v [] m n = ground arith
  lookup-middle k v ((j, w) ∷ pre) m n = ground (arith, lookup-middle k v pre m n.1, n.0)

  pub remove-middle :
      (k : ℕ) (v : V) (pre m : List (ℕ × V))
      → NotKey k pre
      → remove k (pre ++ (k, v) ∷ m) ≡ pre ++ m
  unfolding remove
  remove-middle k v [] m n = ground arith
  remove-middle k v ((j, w) ∷ pre) m n = ground (arith, remove-middle k v pre m n.1, n.0)

  All-middle : (P : ℕ × V → Type 0) {e : ℕ × V} (pre m : List (ℕ × V)) → All P (pre ++ e ∷ m) → P e
  All-middle P [] m h = h.0
  All-middle P (d ∷ pre) m h = All-middle P pre m h.1

  pub Distinct-middle :
      (k : ℕ) (v : V) (pre m : List (ℕ × V)) → Distinct (pre ++ (k, v) ∷ m) → NotKey k pre
  Distinct-middle k v [] m d = tt
  Distinct-middle k v ((j, w) ∷ pre) m d =
      ((λ e. All-middle (λ e. e.0 ≢ j) pre m d.0 (sym e)), Distinct-middle k v pre m d.1)

  pub Distinct-remove :
      (e : ℕ × V) (pre m : List (ℕ × V)) → Distinct (pre ++ e ∷ m) → Distinct (pre ++ m)
  Distinct-remove e [] m d = d.1
  Distinct-remove e (x ∷ pre) m d = (without pre d.0, Distinct-remove e pre m d.1)
    where
      without : (pre : List (ℕ × V)) → NotKey x.0 (pre ++ e ∷ m) → NotKey x.0 (pre ++ m)
      without [] n = n.1
      without (y ∷ pre) n = (n.0, without pre n.1)

  pub Distinct-snoc :
      (k : ℕ) (v : V) (m : List (ℕ × V)) → Distinct m → NotKey k m → Distinct (m ++ (k, v) ∷ [])
  Distinct-snoc k v [] d n = (tt, tt)
  Distinct-snoc k v ((j, w) ∷ m) d n =
      (All-append _ m ((k, v) ∷ []) d.0 ((λ e. n.0 (sym e)), tt), Distinct-snoc k v m d.1 n.1)

  pub NotKey-of_below : (k : ℕ) (m : List (ℕ × V)) → All (λ e. e.0 < k) m → NotKey k m
  NotKey-of_below k [] b = tt
  NotKey-of_below k (e ∷ m) b = ((λ x. omega (arith, b.0, x)), NotKey-of_below k m b.1)

  -- What holds of all that is found holds of all entries.
  pub All-lookup :
      (P : ℕ → V → Type 0) (pre m : List (ℕ × V))
      → Distinct (pre ++ m)
      → ((k : ℕ) (v : V) → lookup k (pre ++ m) ≡ some v → P k v)
      → All (λ e. P e.0 e.1) m
  All-lookup P pre [] d h = tt
  All-lookup P pre ((k, v) ∷ m) d h =
      let shift = append_assoc pre ((k, v) ∷ []) m in
      (
        h k v (lookup-middle k v pre m (Distinct-middle k v pre m d)),
        All-lookup P (pre ++ (k, v) ∷ []) m (subst Distinct (sym shift) d)
            (λ j w e. h j w (ap (lookup j) (sym shift) ∙ e)),
      )
