-- ===== src/Prelude/Dicts.antt =====
-- A Go map as the list of its entries; a write drops the older entry of its key.
use mathlib.Core.Path.{◌≡◌, refl, sym, ◌∙◌}
use mathlib.Core.Logic.{inl, inr}
use mathlib.Core.Bool.{false}
use mathlib.Core.Option.{Option, none, some}
use mathlib.Core.List.{List, [], ◌∷◌}
use native.Mathlib.Omega.{arith}
use merger.Prelude.Tests.{Key, ◌==◌, if◌then◌else◌, eq→≡, eq_refl, Bool-cases, ne→neq, neq→ne}
use merger.Prelude.Lists.{All}

pub eq_false_sym {ℓ} : {K : Type ℓ} ⦃key : Key K⦄ (a b : K) → (a == b) ≡ false → (b == a) ≡ false
eq_false_sym a b h = ne→neq b a (λ e. neq→ne a b h (sym e))

abbrev pub Dict {ℓ κ} : Type ℓ → Type κ → Type (ℓ ⊔ κ)
Dict K V = List (K × V)

module _ {ℓ κ} {K : Type ℓ} {V : Type κ} ⦃key : Key K⦄ where
  unfoldable pub lookup : K → Dict K V → Option V
  lookup k [] = none
  lookup k ((j, v) ∷ m) = if j == k then some v else lookup k m

  unfoldable pub without : K → Dict K V → Dict K V
  without k [] = []
  without k ((j, v) ∷ m) = let rest = without k m in if j == k then rest else (j, v) ∷ rest

  unfoldable pub put : K → V → Dict K V → Dict K V
  unfolding without
  put k v m = (k, v) ∷ without k m

  lookup-without_ne :
      (k j : K) (m : Dict K V) → (k == j) ≡ false → lookup j (without k m) ≡ lookup j m
  unfolding lookup without
  lookup-without_ne k j [] h = refl
  lookup-without_ne k j ((i, v) ∷ m) h =
      ground (arith, lookup-without_ne k j m h, eq→≡ i k, eq→≡ i j)

  pub lookup-put :
      (k j : K) (v : V) (m : Dict K V)
      → lookup j (put k v m) ≡ (if k == j then some v else lookup j m)
  unfolding lookup put
  lookup-put k j v m = ground (arith, lookup-without_ne k j m)

  pub lookup-put_self : (k : K) (v : V) (m : Dict K V) → lookup k (put k v m) ≡ some v
  lookup-put_self k v m = rw (lookup-put, eq_refl k)

module _ {ℓ κ μ ν} {K : Type ℓ} {V : Type κ} ⦃key : Key K⦄ (P : K × V → Type μ)
    (Q : K × V → Type ν) where
  pub All-without :
      (k : K) (m : Dict K V)
      → ((j : K) (w : V) → (j == k) ≡ false → P (j, w) → Q (j, w))
      → All P m
      → All Q (without k m)
  unfolding without
  All-without k [] f h = tt
  All-without k ((j, w) ∷ m) f (p, h) = elim (Bool-cases (j == k)) [
    | inl same ↦ rw same (All-without k m f h)
    | inr other ↦ rw other (f j w other p, All-without k m f h)
  ]

module _ {ℓ κ} {K : Type ℓ} {V : Type κ} ⦃key : Key K⦄ where
  -- Each entry is the one that a lookup of its key finds: no key stands twice.
  abbrev pub Faithful : Dict K V → Type κ
  Faithful m = All (λ (e : K × V). lookup e.0 m ≡ some e.1) m

  pub Faithful-put : (k : K) (v : V) (m : Dict K V) → Faithful m → Faithful (put k v m)
  Faithful-put k v m h =
      unfold put in
      (unfold lookup in rw (eq_refl k), All-without _ _ k m (λ j w ne p. kept j w ne p) h)
    where
      kept :
          (j : K) (w : V) → (j == k) ≡ false → lookup j m ≡ some w → lookup j (put k v m) ≡ some w
      kept j w ne p =
          lookup-put k j v m ∙ (let e : (k == j) ≡ false = eq_false_sym j k ne in rw e p)
