-- ===== src/Renet/Run.antt =====
-- What a step of the UDP transport yields: its loops may run out of the model's fuel and its `unwrap`s
-- may panic. `while_some` is the `while let Some(..)` of src/renet/client.rs and src/renet/server.rs.
use brilliance_network.Prelude.{
  ℕ, zero, suc, ◌<◌, ◌≡◌, refl, Option, none, some, List, [], ◌∷◌, arith, length,
}

pub data Run {ℓ} (A : Type ℓ) : Type ℓ where
  ran : A → Run A
  panicked : Run A
  out_of_fuel : Run A

infixl 5 ◌>>=◌
abbrev pub ◌>>=◌ {ℓ κ} : {A : Type ℓ} {B : Type κ} → Run A → (A → Run B) → Run B
ran a >>= f = f a
panicked >>= f = panicked
out_of_fuel >>= f = out_of_fuel

-- `unwrap`.
abbrev pub unwrap {ℓ} : {A : Type ℓ} → Option A → Run A
unwrap none = panicked
unwrap (some a) = ran a

module _ {A S : Type 0} (next : S → Option (A × S)) (body : A → S → Run S) where
  unfoldable pub while_some : ℕ → S → Run S
  while_some zero s = out_of_fuel
  while_some (suc fuel) s = elim (next s) [
    | none ↦ ran s
    | some (a, t) ↦ body a t >>= λ u. while_some fuel u
  ]

  -- Where `P xs s` says that `xs` are still to come, each round takes the first of them. With more
  -- fuel than they are, the loop ends where none is left.
  pub while_some_lem :
      (P : List A → S → Type 0)
      → ((s : S) → P [] s → next s ≡ none)
      → ((a : A) (xs : List A) (s : S)
          → P (a ∷ xs) s
          → (t : S) × (u : S) × (next s ≡ some (a, t)) × (body a t ≡ ran u) × P xs u)
      → (fuel : ℕ) (xs : List A) (s : S) → length xs < fuel
      → P xs s
      → (u : S) × (while_some fuel s ≡ ran u) × P [] u
  unfolding while_some
  while_some_lem P last more zero xs s h p = absurd (omega arith)
  while_some_lem P last more (suc fuel) [] s h p = (s, rw (last s p, while_some) refl, p)
  while_some_lem P last more (suc fuel) (a ∷ xs) s h p =
      let (t, u, got, done, q) = more a xs s p in
      let (v, ends, r) = while_some_lem P last more fuel xs u (omega arith) q in
      (v, rw (got, while_some, done) ends, r)
