-- ===== src/Prelude/Reorder.antt =====
-- What a list yields, when its elements come in another order.
use mathlib.Core.Path.{◌≡◌, sym, ap, subst, ◌∙◌}
use mathlib.Core.Logic.{∥∥₁_map}
use mathlib.Core.List.{List, ◌++◌, append_assoc, Perm, Permᴰ}
use mathlib.Core.List.Permᴰ
use brilliance_network.Prelude.Collect.{collect}

module _ {ℓ κ} {A : Type ℓ} {B : Type κ} (f : A → List B) where
  same_list : {xs ys : List B} → xs ≡ ys → Permᴰ xs ys
  same_list {xs} e = subst (λ l. Permᴰ xs l) e (Permᴰ.refl xs)

  swap_ends :
      (a b : A) (l : List A) → Permᴰ (f a ++ (f b ++ collect f l)) (f b ++ (f a ++ collect f l))
  swap_ends a b l = Permᴰ.trans (same_list (sym (append_assoc (f a) (f b) (collect f l)))) (
      Permᴰ.trans (Permᴰ.append_right (collect f l) (Permᴰ.append_comm (f a) (f b)))
        (same_list (append_assoc (f b) (f a) (collect f l))))

  collect-Permᴰ : {xs ys : List A} → Permᴰ xs ys → Permᴰ (collect f xs) (collect f ys)
  unfolding collect
  collect-Permᴰ Permᴰ.nil = Permᴰ.nil
  collect-Permᴰ (Permᴰ.cons {a} {l₂ = l₂} e d) =
      Permᴰ.trans (Permᴰ.append_left (f a) (collect-Permᴰ d))
        (same_list (ap (λ x. f x ++ collect f l₂) e))
  collect-Permᴰ (Permᴰ.swap {a} {b} {a' = a'} {l = l} e₁ e₂) = Permᴰ.trans (swap_ends a b l) (
      same_list
        (ap (λ x. f x ++ (f a ++ collect f l)) e₂ ∙ ap (λ x. f a' ++ (f x ++ collect f l)) e₁))
  collect-Permᴰ (Permᴰ.trans d₁ d₂) = Permᴰ.trans (collect-Permᴰ d₁) (collect-Permᴰ d₂)

  pub collect-Perm : {xs ys : List A} → Perm xs ys → Perm (collect f xs) (collect f ys)
  collect-Perm {xs} {ys} p = ∥∥₁_map {B = Permᴰ (collect f xs) (collect f ys)} p collect-Permᴰ
