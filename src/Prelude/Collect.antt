-- ===== src/Prelude/Collect.antt =====
-- What the elements of a list yield, one after the other.
use mathlib.Core.Path.{◌≡◌, refl, sym, ap, ◌∙◌}
use mathlib.Core.List.{List, [], ◌∷◌, ◌++◌, append-nil, append_assoc}
use brilliance_network.Prelude.Lists.{All}

unfoldable pub collect {ℓ κ} : {A : Type ℓ} {B : Type κ} → (A → List B) → List A → List B
collect f [] = []
collect f (x ∷ xs) = f x ++ collect f xs

pub collect-append {ℓ κ} :
    {A : Type ℓ} {B : Type κ} (f : A → List B) (xs ys : List A)
    → collect f (xs ++ ys) ≡ collect f xs ++ collect f ys
unfolding collect
collect-append f [] ys = refl
collect-append f (x ∷ xs) ys =
    ap (λ l. f x ++ l) (collect-append f xs ys)
    ∙ sym (append_assoc (f x) (collect f xs) (collect f ys))

pub collect-snoc {ℓ κ} :
    {A : Type ℓ} {B : Type κ} (f : A → List B) (xs : List A) (x : A)
    → collect f (xs ++ x ∷ []) ≡ collect f xs ++ f x
unfolding collect
collect-snoc f xs x = collect-append f xs (x ∷ []) ∙ ap (λ l. collect f xs ++ l) (append-nil (f x))

-- Functions that agree on a list yield the same from it.
pub collect-ext {ℓ κ} :
    {A : Type ℓ} {B : Type κ} (f g : A → List B) (xs : List A)
    → All (λ x. f x ≡ g x) xs
    → collect f xs ≡ collect g xs
unfolding collect
collect-ext f g [] h = refl
collect-ext f g (x ∷ xs) h = rw (h.0, collect-ext f g xs h.1) refl

pub collect-collect {ℓ κ μ} :
    {A : Type ℓ} {B : Type κ} {C : Type μ} (f : B → List C) (g : A → List B) (xs : List A)
    → collect f (collect g xs) ≡ collect (λ x. collect f (g x)) xs
unfolding collect
collect-collect f g [] = refl
collect-collect f g (x ∷ xs) =
    collect-append f (g x) (collect g xs) ∙ ap (λ l. collect f (g x) ++ l) (collect-collect f g xs)

pub collect-none {ℓ κ} : {A : Type ℓ} {B : Type κ} (xs : List A) → collect {B = B} (λ x. []) xs ≡ []
unfolding collect
collect-none [] = refl
collect-none (x ∷ xs) = collect-none xs
