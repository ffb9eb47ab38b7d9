-- ===== src/Interpolation/ClockSync/Sorting.antt =====
-- The sort of the offset samples, and the element in the middle of its result.
use mathlib.Core.List.{Perm}
use mathlib.Core.Option.{some-injective}
use mathlib.Core.List.Perm
use brilliance_network.Prelude.{
  ℕ, zero, suc, ◌≡◌, refl, ap, subst, inl, inr, true, some, List, [], ◌∷◌, ◌++◌, arith, length,
  get_elem?, All, All-get_elem?, Bool-cases,
}
use brilliance_network.Float.{Float, IsNum, IsOrdered, ◌⊑◌, le_of_not_le}
use brilliance_network.Interpolation.ClockSync.{insert, sorted, all_num}

module _ {R : Type 0} ⦃f : Float R⦄ where
  abbrev pub IsSorted : List R → Type 0
  IsSorted [] = Unit {0}
  IsSorted (x ∷ xs) = All (λ y. x ⊑ y) xs × IsSorted xs

  -- `m` stands `n` places from the front of a list in order.
  pub record IsAt (m : R) (n : ℕ) (xs : List R) : Type 0 where
    pub front : List R
    pub back : List R
    pub split : xs ≡ front ++ m ∷ back
    pub place : length front ≡ n
    pub below : All (λ y. y ⊑ m) front
    pub above : All (λ y. m ⊑ y) back

  insert-Perm : (x : R) (xs : List R) → Perm (insert x xs) (x ∷ xs)
  unfolding insert
  insert-Perm x [] = Perm.refl (x ∷ [])
  insert-Perm x (y ∷ ys) = elim (Bool-cases (f.le x y)) [
    | inl e ↦ rw e (Perm.refl (x ∷ y ∷ ys))
    | inr e ↦ rw e (Perm.trans (Perm.cons y (insert-Perm x ys)) (Perm.swap x y ys))
  ]

  pub sorted-Perm : (xs : List R) → Perm (sorted xs) xs
  unfolding sorted
  sorted-Perm [] = Perm.refl []
  sorted-Perm (x ∷ xs) = Perm.trans (insert-Perm x (sorted xs)) (Perm.cons x (sorted-Perm xs))

  pub length-sorted : (xs : List R) → length (sorted xs) ≡ length xs
  unfolding sorted
  length-sorted [] = refl
  length-sorted (x ∷ xs) = omega (arith, length-insert x (sorted xs), length-sorted xs)
    where
      length-insert : (x : R) (xs : List R) → length (insert x xs) ≡ suc (length xs)
      length-insert x [] = refl
      length-insert x (y ∷ ys) = ground (arith, length-insert x ys)

  All-insert : (P : R → Type 0) (x : R) (xs : List R) → P x → All P xs → All P (insert x xs)
  unfolding insert
  All-insert P x [] p a = (p, tt)
  All-insert P x (y ∷ ys) p a = elim (Bool-cases (f.le x y)) [
    | inl e ↦ rw e (p, a)
    | inr e ↦ rw e (a.0, All-insert P x ys p a.1)
  ]

  All-sorted : (P : R → Type 0) (xs : List R) → All P xs → All P (sorted xs)
  unfolding sorted
  All-sorted P [] a = a
  All-sorted P (x ∷ xs) a = All-insert P x (sorted xs) a.0 (All-sorted P xs a.1)

  pub all_num-All : (xs : List R) → all_num xs ≡ true → All IsNum xs
  unfolding all_num
  all_num-All [] e = tt
  all_num-All (x ∷ xs) e = ground (arith, all_num-All xs)

  pub All-all_num : (xs : List R) → All IsNum xs → all_num xs ≡ true
  unfolding all_num
  All-all_num [] a = refl
  All-all_num (x ∷ xs) a = ground (arith, All-all_num xs a.1)

  -- Every place of a list in order splits it.
  pub IsSorted-IsAt :
      (xs : List R) (i : ℕ) {m : R} → IsSorted xs → get_elem? xs i ≡ some m → IsAt m i xs
  IsSorted-IsAt [] i s e = cc
  IsSorted-IsAt (x ∷ xs) zero {m} s e =
      subst (λ w. IsAt w 0 (x ∷ xs)) (some-injective x m e)
        (record { front = []; back = xs; split = refl; place = refl; below = tt; above = s.0 })
  IsSorted-IsAt (x ∷ xs) (suc i) {m} s e =
      let rest = IsSorted-IsAt xs i s.1 e in
      record {
        front = x ∷ rest.front;
        back = rest.back;
        split = ap (◌∷◌ x) rest.split;
        place = ap suc rest.place;
        below = (All-get_elem? (λ y. x ⊑ y) xs i s.0 e, rest.below);
        above = rest.above;
      }

  module _ (laws : IsOrdered R) where
    All-le_trans : (x y : R) (xs : List R) → x ⊑ y → All (λ z. y ⊑ z) xs → All (λ z. x ⊑ z) xs
    All-le_trans x y [] h a = tt
    All-le_trans x y (z ∷ xs) h a = (laws.le_trans x y z h a.0, All-le_trans x y xs h a.1)

    insert-IsSorted :
        (x : R) (xs : List R) → IsNum x → All IsNum xs → IsSorted xs → IsSorted (insert x xs)
    unfolding insert
    insert-IsSorted x [] n a s = (tt, tt)
    insert-IsSorted x (y ∷ ys) n a s = elim (Bool-cases (f.le x y)) [
      | inl e ↦ rw e ((e, All-le_trans x y ys e s.0), s)
      | inr e ↦ rw e (
        All-insert (λ z. y ⊑ z) x ys (le_of_not_le laws x y n a.0 e) s.0,
        insert-IsSorted x ys n a.1 s.1,
      )
    ]

    pub sorted-IsSorted : (xs : List R) → All IsNum xs → IsSorted (sorted xs)
    unfolding sorted
    sorted-IsSorted [] a = tt
    sorted-IsSorted (x ∷ xs) a =
        insert-IsSorted x (sorted xs) a.0 (All-sorted IsNum xs a.1) (sorted-IsSorted xs a.1)
