-- ===== src/Fixed.antt =====
-- Unsigned thousandths with a NaN, for the examples: a `Float` on which every operation computes.
use brilliance_network.Prelude.{
  ℕ, ◌+◌, ◌-◌, ◌*◌, ◌/◌, ◌^◌, ◌≡◌, ◌⊎◌, Bool, true, false, not, arith, ltb, leb, ◌==◌,
  if◌then◌else◌,
}
use brilliance_network.Float.{Float, Narrow, IsOrdered}

pub data Fixed : Type 0 where
  nan : Fixed
  thousandths : ℕ → Fixed

abbrev pub both : (ℕ → ℕ → Fixed) → Fixed → Fixed → Fixed
both op nan y = nan
both op (thousandths m) nan = nan
both op (thousandths m) (thousandths n) = op m n

abbrev pub test : (ℕ → ℕ → Bool) → Fixed → Fixed → Bool
test p nan y = false
test p (thousandths m) nan = false
test p (thousandths m) (thousandths n) = p m n

instance unfoldable pub Float_Fixed : Float Fixed
Float_Fixed = record {
  lt = test ltb;
  le = test leb;
  add = both (λ m n. thousandths (m + n));
  sub = both (λ m n. thousandths (m - n));
  mul = both (λ m n. thousandths (m * n / 1000));
  div = both (λ m n. if n == 0 then nan else thousandths (m * 1000 / n));
  neg = λ x. x;
  abs = λ x. x;
  exp = λ x. thousandths 500;
  literal = λ m k. thousandths (m * 1000 / 10 ^ k);
}

instance unfoldable pub Narrow_Fixed : Narrow Fixed Fixed
Narrow_Fixed = record { narrow = λ x. x }

le-IsNum_Fixed : (x y : Fixed) → test leb x y ≡ true → (test leb x x ≡ true) × (test leb y y ≡ true)
le-IsNum_Fixed nan y h = cc
le-IsNum_Fixed (thousandths m) nan h = cc
le-IsNum_Fixed (thousandths m) (thousandths n) h = ground arith

lt-IsNum_Fixed : (x y : Fixed) → test ltb x y ≡ true → (test leb x x ≡ true) × (test leb y y ≡ true)
lt-IsNum_Fixed nan y h = cc
lt-IsNum_Fixed (thousandths m) nan h = cc
lt-IsNum_Fixed (thousandths m) (thousandths n) h = ground arith

le_trans_Fixed : (x y z : Fixed) → test leb x y ≡ true → test leb y z ≡ true → test leb x z ≡ true
le_trans_Fixed nan y z h k = cc
le_trans_Fixed (thousandths m) nan z h k = cc
le_trans_Fixed (thousandths m) (thousandths n) nan h k = cc
le_trans_Fixed (thousandths m) (thousandths n) (thousandths o) h k = ground arith

le_total_Fixed :
    (x y : Fixed)
    → test leb x x ≡ true
    → test leb y y ≡ true
    → (test leb x y ≡ true) ⊎ (test leb y x ≡ true)
le_total_Fixed nan y h k = cc
le_total_Fixed (thousandths m) nan h k = cc
le_total_Fixed (thousandths m) (thousandths n) h k = ground arith

lt-eq-not-le_Fixed :
    (x y : Fixed) → test leb x x ≡ true → test leb y y ≡ true → test ltb x y ≡ not (test leb y x)
lt-eq-not-le_Fixed nan y h k = cc
lt-eq-not-le_Fixed (thousandths m) nan h k = cc
lt-eq-not-le_Fixed (thousandths m) (thousandths n) h k = ground arith

pub IsOrdered-Fixed : IsOrdered Fixed
unfolding Float_Fixed
IsOrdered-Fixed = record {
  le-IsNum = le-IsNum_Fixed;
  lt-IsNum = lt-IsNum_Fixed;
  le_trans = le_trans_Fixed;
  le_total = le_total_Fixed;
  lt-eq-not-le = lt-eq-not-le_Fixed;
}
