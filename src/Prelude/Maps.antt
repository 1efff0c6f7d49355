-- ===== src/Prelude/Maps.antt =====
-- Go leaves the order in which `range` visits a map open: it is a parameter of the program.
use Prim.Native.Nat.{ℕ, ◌+◌}
use mathlib.Core.Path.{◌≡◌, refl, ap, sym, subst, ◌∙◌}
use mathlib.Core.Bool.{Bool}
use mathlib.Core.List.{List, [], ◌∷◌, Permᴰ, reverse, map}
use mathlib.Core.List.Permᴰ
use native.Mathlib.Omega.{arith}
use merger.Prelude.Lists.{any, All}

-- `iterate` is the order in which the entries of a map are visited.
pub record MapOrder : Type 1 where
  pub iterate : (A : Type 0) → List A → List A
  pub visits_all : (A : Type 0) (xs : List A) → Permᴰ (iterate A xs) xs

-- Two orders that a run may show.
abbrev pub insertion_order : MapOrder
insertion_order = record { iterate = λ A xs. xs; visits_all = λ A xs. Permᴰ.refl xs }

abbrev pub reverse_order : MapOrder
reverse_order = record { iterate = λ A xs. reverse xs; visits_all = λ A xs. Permᴰ.reverse xs }

abbrev pub sum_by {ℓ} : {A : Type ℓ} → (A → ℕ) → List A → ℕ
sum_by f [] = 0
sum_by f (x ∷ xs) = f x + sum_by f xs

pub sum_by-perm {ℓ} :
    {A : Type ℓ} (f : A → ℕ) {xs ys : List A} → Permᴰ xs ys → sum_by f xs ≡ sum_by f ys
sum_by-perm f Permᴰ.nil = refl
sum_by-perm f (Permᴰ.cons p q) = omega (arith, ap f p, sum_by-perm f q)
sum_by-perm f (Permᴰ.swap p q) = omega (arith, ap f p, ap f q)
sum_by-perm f (Permᴰ.trans p q) = sum_by-perm f p ∙ sum_by-perm f q

pub any-perm {ℓ} : {A : Type ℓ} (f : A → Bool) {xs ys : List A} → Permᴰ xs ys → any f xs ≡ any f ys
any-perm f Permᴰ.nil = refl
any-perm f (Permᴰ.cons p q) = ground (arith, ap f p, any-perm f q)
any-perm f (Permᴰ.swap p q) = ground (arith, ap f p, ap f q)
any-perm f (Permᴰ.trans p q) = any-perm f p ∙ any-perm f q

module _ {ℓ κ} {A : Type ℓ} (P : A → Type κ) where
  pub All-perm : {xs ys : List A} → Permᴰ xs ys → All P ys → All P xs
  All-perm Permᴰ.nil h = tt
  All-perm (Permᴰ.cons p q) (a, h) = (subst P (sym p) a, All-perm q h)
  All-perm (Permᴰ.swap p q) (a, (b, h)) = (subst P (sym p) b, (subst P (sym q) a, h))
  All-perm (Permᴰ.trans p q) h = All-perm p (All-perm q h)

pub All-map-fun {ℓ κ μ} :
    {A : Type ℓ} {B : Type κ} (P : B → Type μ) (f : A → B) (xs : List A)
    → All (λ a. P (f a)) xs
    → All P (map f xs)
All-map-fun P f [] h = tt
All-map-fun P f (x ∷ xs) (p, h) = (p, All-map-fun P f xs h)

pub any-map {ℓ κ} :
    {A : Type ℓ} {B : Type κ} (g : B → Bool) (f : A → B) (xs : List A)
    → any g (map f xs) ≡ any (λ a. g (f a)) xs
any-map g f [] = refl
any-map g f (x ∷ xs) = ground (arith, any-map g f xs)
