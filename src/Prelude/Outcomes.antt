-- ===== src/Prelude/Outcomes.antt =====
-- What a call that may panic yields, and the index operations that panic.
use Prim.Native.Nat.{ℕ, suc, ◌-◌}
use mathlib.Core.Path.{◌≡◌}
use mathlib.Core.Option.{Option, none, some}
use mathlib.Core.List.{List}
use native.Mathlib.Omega.{arith}
use brilliance_network.Prelude.Tests.{ltb, if◌then◌else◌}
use brilliance_network.Prelude.Lists.{get_elem?}

pub data Outcome {ℓ} (A : Type ℓ) : Type ℓ where
  done : A → Outcome A
  panic : Outcome A

infixl 5 ◌>>=◌
abbrev pub ◌>>=◌ {ℓ κ} : {A : Type ℓ} {B : Type κ} → Outcome A → (A → Outcome B) → Outcome B
done a >>= f = f a
panic >>= f = panic

abbrev pub or_panic {ℓ} : {A : Type ℓ} → Option A → Outcome A
or_panic none = panic
or_panic (some a) = done a

-- `xs[i]`.
abbrev pub index {ℓ} : {A : Type ℓ} → List A → ℕ → Outcome A
index xs i = or_panic (get_elem? xs i)

-- `a - b` on `usize`. Where it underflows, a build with overflow checks panics at once; without
-- them the value wraps to an index that no sequence has, so the index that follows panics.
abbrev pub usize_sub : ℕ → ℕ → Outcome ℕ
usize_sub a b = if ltb a b then panic else done (a - b)

pub usize_sub-suc : (k : ℕ) → usize_sub (suc k) 1 ≡ done k
usize_sub-suc k = ground arith
