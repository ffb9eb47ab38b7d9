-- ===== src/Float.antt =====
-- The floating-point numbers of the program (`f64` and `f32`), as an interface: the operations that
-- the sources use, and the facts of IEEE 754 that the theorems rest on.
use brilliance_network.Prelude.{
  ℕ, ◌≡◌, refl, ◌⊎◌, inl, inr, Bool, true, false, not, arith, if◌then◌else◌, Outcome, done, panic,
  Bool-cases,
}

pub record Float {ℓ} (R : Type ℓ) : Type ℓ where
  pub lt : R → R → Bool
  pub le : R → R → Bool
  pub add : R → R → R
  pub sub : R → R → R
  pub mul : R → R → R
  pub div : R → R → R
  pub neg : R → R
  pub abs : R → R
  pub exp : R → R
  -- `literal m k` is the literal of value m / 10 ^ k.
  pub literal : ℕ → ℕ → R

-- The cast `as f32`.
pub record Narrow {ℓ κ} (R : Type ℓ) (S : Type κ) : Type (ℓ ⊔ κ) where
  pub narrow : R → S

module _ {ℓ} {R : Type ℓ} ⦃f : Float R⦄ where
  infix 4 ◌⊑◌ ◌⊏◌
  abbrev pub ◌⊑◌ : R → R → Type 0
  x ⊑ y = f.le x y ≡ true

  abbrev pub ◌⊏◌ : R → R → Type 0
  x ⊏ y = f.lt x y ≡ true

  -- Not NaN.
  abbrev pub IsNum : R → Type 0
  IsNum x = x ⊑ x

  -- `f64::max`: NaN loses.
  unfoldable pub max_num : R → R → R
  max_num x y =
      if not (f.le x x) then y else if not (f.le y y) then x else if f.lt x y then y else x

  -- `f64::clamp`, which asserts `lo <= hi`.
  unfoldable pub clamp : R → R → R → Outcome R
  clamp x lo hi =
      if f.le lo hi
      then (let y = if f.lt x lo then lo else x in done (if f.lt hi y then hi else y))
      else panic

-- Comparison is a total order away from NaN, and NaN compares as false.
pub record IsOrdered {ℓ} (R : Type ℓ) ⦃f : Float R⦄ : Type ℓ where
  pub le-IsNum : (x y : R) → x ⊑ y → IsNum x × IsNum y
  pub lt-IsNum : (x y : R) → x ⊏ y → IsNum x × IsNum y
  pub le_trans : (x y z : R) → x ⊑ y → y ⊑ z → x ⊑ z
  pub le_total : (x y : R) → IsNum x → IsNum y → (x ⊑ y) ⊎ (y ⊑ x)
  pub lt-eq-not-le : (x y : R) → IsNum x → IsNum y → f.lt x y ≡ not (f.le y x)

module _ {ℓ} {R : Type ℓ} ⦃f : Float R⦄ (laws : IsOrdered R) where
  open laws use {lt-IsNum, le_total, lt-eq-not-le}

  pub le_of_lt : (x y : R) → x ⊏ y → x ⊑ y
  le_of_lt x y h =
      let (p, q) = lt-IsNum x y h in ground (arith, lt-eq-not-le x y p q, le_total x y p q)

  pub le_of_not_lt : (x y : R) → IsNum x → IsNum y → f.lt x y ≡ false → y ⊑ x
  le_of_not_lt x y p q h = ground (arith, lt-eq-not-le x y p q)

  pub le_of_not_le : (x y : R) → IsNum x → IsNum y → f.le x y ≡ false → y ⊑ x
  le_of_not_le x y p q h = ground (arith, le_total x y p q)

  pub lt_of_not_le : (x y : R) → IsNum x → IsNum y → f.le x y ≡ false → y ⊏ x
  lt_of_not_le x y p q h = ground (arith, lt-eq-not-le y x q p)

  pub not_le_of_lt : (x y : R) → x ⊏ y → f.le y x ≡ false
  not_le_of_lt x y h = let (p, q) = lt-IsNum x y h in ground (arith, lt-eq-not-le x y p q)

  pub lt_of_lt_of_le : (x y z : R) → x ⊏ y → y ⊑ z → x ⊏ z
  lt_of_lt_of_le x y z h k =
      let (p, _) = lt-IsNum x y h in
      let (_, r) = laws.le-IsNum y z k in
      ground (arith, lt-eq-not-le x z p r, laws.le_trans y z x k, not_le_of_lt x y h)

  -- A clamp between limits in order returns a value between them: its argument, or a limit.
  pub clamp_bounds :
      (x lo hi : R)
      → lo ⊑ hi
      → IsNum x
      → (y : R) × (clamp x lo hi ≡ done y)
        × (lo ⊑ y)
        × (y ⊑ hi)
        × ((y ≡ x) ⊎ ((x ⊏ lo) × (y ≡ lo)) ⊎ ((hi ⊏ x) × (y ≡ hi)))
  unfolding clamp
  clamp_bounds x lo hi h n =
      let (p, q) = laws.le-IsNum lo hi h in
      elim (Bool-cases (f.lt x lo)) [
        | inl below ↦ (lo, ground (arith, lt-eq-not-le hi lo q p), p, h, inr (inl (below, refl)))
        | inr above ↦ elim (Bool-cases (f.lt hi x)) [
          | inl over ↦ (hi, ground arith, h, q, inr (inr (over, refl)))
          | inr within ↦
              (x, ground arith, le_of_not_lt x lo n p above, le_of_not_lt hi x q n within, inl refl)
        ]
      ]
