-- ===== src/Text/Laws.antt =====
-- Laws of the text operations.
use merger.Prelude.{
  Bool, true, false, inl, inr, sym, ap, ◌∙◌, refl, ℕ, ◌≡◌, refl, ap, true, List, [], ◌∷◌, ◌++◌,
  ◌==◌, arith, Bool-cases, nat_key, inl, inr, ◌≢◌, eq→≡, eq_refl, ◌⊎◌, neq→ne, false, ◌||◌,
}
use mathlib.Core.List.{reverse, reverse-reverse, reverse-append}
use merger.Text.{
  is_space, has_space, trim_space, trim, trim_left, Str, to_lower, split, join, push_head,
  equal_fold, str_key,
}

push_head-ne-nil : (c : ℕ) (parts : List Str) → push_head c parts ≢ []
push_head-ne-nil c [] h = cc
push_head-ne-nil c (p ∷ ps) h = cc

pub split-ne-nil : (sep : ℕ) (s : Str) → split sep s ≢ []
unfolding split
split-ne-nil sep [] h = cc
split-ne-nil sep (c ∷ s) h = ground (arith, push_head-ne-nil c (split sep s))

join-cons :
    (sep part : Str) (parts : List Str)
    → parts ≢ []
    → join sep (part ∷ parts) ≡ part ++ (sep ++ join sep parts)
unfolding join
join-cons sep part [] h = absurd (h refl)
join-cons sep part (p ∷ ps) h = refl

join-push_head :
    (sep : Str) (c : ℕ) (parts : List Str) → join sep (push_head c parts) ≡ c ∷ join sep parts
unfolding join
join-push_head sep c [] = refl
join-push_head sep c (p ∷ []) = refl
join-push_head sep c (p ∷ (q ∷ ps)) = refl

join-nil : (sep : Str) → join sep ([] ∷ []) ≡ []
unfolding join
join-nil sep = refl

-- Joining the parts of a split text with the separator gives the text back.
pub join-split : (sep : ℕ) (s : Str) → join (sep ∷ []) (split sep s) ≡ s
unfolding split
join-split sep [] = join-nil (sep ∷ [])
join-split sep (c ∷ s) = elim (Bool-cases (c == sep)) [
  | inl same ↦ rw same (
      join-cons (sep ∷ []) [] (split sep s) (split-ne-nil sep s)
      ∙ (let e : c ≡ sep = eq→≡ c sep same in cc (join-split sep s)))
  | inr other ↦
      rw other (join-push_head (sep ∷ []) c (split sep s) ∙ ap (λ t. c ∷ t) (join-split sep s))
]

pub equal_fold→lower : (s t : Str) → equal_fold s t ≡ true → to_lower s ≡ to_lower t
unfolding equal_fold
equal_fold→lower s t h = eq→≡ (to_lower s) (to_lower t) h

pub lower→equal_fold : (s t : Str) → to_lower s ≡ to_lower t → equal_fold s t ≡ true
unfolding equal_fold
lower→equal_fold s t h = rw h (eq_refl (to_lower t))

pub equal_fold_refl : (s : Str) → equal_fold s s ≡ true
equal_fold_refl s = lower→equal_fold s s refl

pub equal_fold_sym : (s t : Str) → equal_fold s t ≡ equal_fold t s
equal_fold_sym s t =
    ground (
      arith,
      equal_fold→lower s t,
      equal_fold→lower t s,
      lower→equal_fold s t,
      lower→equal_fold t s,
    )

pub equal_fold_trans :
    (s t u : Str) → equal_fold s t ≡ true → equal_fold t u ≡ true → equal_fold s u ≡ true
equal_fold_trans s t u h k = lower→equal_fold s u (equal_fold→lower s t h ∙ equal_fold→lower t u k)

trim_left_head :
    (p : ℕ → Bool) (s : Str) (c : ℕ) (rest : Str) → trim_left p s ≡ c ∷ rest → p c ≡ false
unfolding trim_left
trim_left_head p [] c rest h = cc
trim_left_head p (d ∷ s) c rest h = elim (Bool-cases (p d)) [
  | inl drop ↦ trim_left_head p s c rest (rw drop at h)
  | inr keep ↦ (let e : d ∷ s ≡ c ∷ rest = rw keep at h in let f : d ≡ c = cc in rw (sym f) keep)
]

-- A trimmed text does not end with what was trimmed.
pub trim_last : (p : ℕ → Bool) (s front : Str) (c : ℕ) → trim p s ≡ front ++ c ∷ [] → p c ≡ false
unfolding trim
trim_last p s front c h = trim_left_head p (reverse (trim_left p s)) c (reverse front) (
    sym (reverse-reverse (trim_left p (reverse (trim_left p s))))
    ∙ ap reverse h
    ∙ reverse-append front (c ∷ []))

trim_left_keeps : (p : ℕ → Bool) (c : ℕ) (s : Str) → p c ≡ false → trim_left p (c ∷ s) ≡ c ∷ s
unfolding trim_left
trim_left_keeps p c s h = rw h refl

-- A text that neither begins nor ends with space is its own trim.
pub trim_space_ends :
    (s : Str) (c d : ℕ) (rest front : Str)
    → s ≡ c ∷ rest
    → reverse s ≡ d ∷ front
    → is_space c ≡ false
    → is_space d ≡ false
    → trim_space s ≡ s
unfolding trim_space trim
trim_space_ends s c d rest front e f hc hd =
    let whole : trim_left is_space s ≡ s = rw e (trim_left_keeps is_space c rest hc) in
    let back : trim_left is_space (reverse s) ≡ reverse s =
      rw f (trim_left_keeps is_space d front hd) in
    ap (λ t. reverse (trim_left is_space (reverse t))) whole ∙ ap reverse back ∙ reverse-reverse s

has_space-append : (s t : Str) → has_space (s ++ t) ≡ (has_space s || has_space t)
unfolding has_space
has_space-append [] t = refl
has_space-append (c ∷ s) t = ground (arith, has_space-append s t)

has_space-reverse : (s : Str) → has_space (reverse s) ≡ has_space s
unfolding has_space
has_space-reverse [] = refl
has_space-reverse (c ∷ s) =
    ap has_space (reverse-append (c ∷ []) s)
    ∙ has_space-append (reverse s) (c ∷ [])
    ∙ ground (arith, has_space-reverse s)

head_solid :
    (s : Str)
    → has_space s ≡ false
    → (s ≡ []) ⊎ ((c : ℕ) × (rest : Str) × (s ≡ c ∷ rest) × (is_space c ≡ false))
unfolding has_space
head_solid [] h = inl refl
head_solid (c ∷ s) h = inr (c, s, refl, ground arith)

-- A text of one word ends with no space.
pub last_solid :
    (s : Str)
    → has_space s ≡ false
    → (s == []) ≡ false
    → (c : ℕ) × (rest : Str) × (reverse s ≡ c ∷ rest) × (is_space c ≡ false)
last_solid s h n = elim (head_solid (reverse s) (has_space-reverse s ∙ h)) [
  | inl e ↦ absurd (neq→ne s [] n (sym (reverse-reverse s) ∙ ap reverse e))
  | inr found ↦ found
]

pub trim_space_word : (s : Str) → has_space s ≡ false → (s == []) ≡ false → trim_space s ≡ s
trim_space_word s h n = elim (head_solid s h) [
  | inl e ↦ absurd (neq→ne s [] n e)
  | inr (c, rest, e, hc) ↦
      (let (d, front, f, hd) = last_solid s h n in trim_space_ends s c d rest front e f hc hd)
]
