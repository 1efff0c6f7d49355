-- ===== src/Mutations/Covers.antt =====
-- engine.go and mutation_index.go: nothing that a rule detects is lost.
use merger.Prelude.{
  ◌≤◌, ◌≡◌, refl, ◌∙◌, Bool, true, ◌||◌, List, [], ◌∷◌, ◌++◌, some, any, ◌==◌, if◌then◌else◌, Dict,
  lookup, arith, Bool-cases, inl, inr, eq→≡,
}
use mathlib.Core.Path.{subst}
use merger.Text.{Str, str_key}
use merger.Domain.{Mutation, MutationKind, kind_key}
use merger.Mutations.Rules.{Rule}
use merger.Mutations.Index.{severity_rank, append_unique_strings, merged}

abbrev has : Str → List Str → Bool
has path = any (λ value. value == path)

any-append {ℓ} :
    {A : Type ℓ} (f : A → Bool) (xs ys : List A) → any f (xs ++ ys) ≡ (any f xs || any f ys)
any-append f [] ys = refl
any-append f (x ∷ xs) ys = ground (arith, any-append f xs ys)

one_more :
    (path : Str) (values : List Str) (c : Str)
    → has path (if has c values then values else values ++ c ∷ []) ≡ (has path values || c == path)
one_more path values c = elim (Bool-cases (has c values)) [
  | inl here ↦ rw here (
      let h : (c == path) ≡ true → has path values ≡ true =
        λ e. subst (λ x. has x values ≡ true) (eq→≡ c path e) here in
      ground arith)
  | inr new ↦ rw new (any-append (λ value. value == path) values (c ∷ []) ∙ ground arith)
]

append_unique_strings-has :
    (path : Str) (values candidates : List Str)
    → has path (append_unique_strings values candidates) ≡ (has path values || has path candidates)
unfolding append_unique_strings
append_unique_strings-has path values [] = ground arith
append_unique_strings-has path values (c ∷ cs) =
    append_unique_strings-has path (if has c values then values else values ++ c ∷ []) cs
    ∙ ground (arith, one_more path values c)

-- A mutation that covers what a rule finds in a file: it has the kind of the rule, at least its
-- severity and its confidence, and the path among its files.
pub record Covers (r : Rule) (path : Str) (m : Mutation) : Type 0 where
  pub kind : m.kind ≡ r.kind
  pub severity : severity_rank r.severity ≤ severity_rank m.severity
  pub confidence : r.confidence ≤ m.confidence
  pub listed : any (λ value. value == path) m.files ≡ true

pub record Indexed (r : Rule) (path : Str) (index : Dict MutationKind Mutation) : Type 0 where
  pub mutation : Mutation
  pub stored : lookup r.kind index ≡ some mutation
  pub covers : Covers r path mutation

pub merged-left :
    (r : Rule) (path : Str) (current m : Mutation)
    → Covers r path current
    → Covers r path (merged current m)
unfolding merged
merged-left r path current m c = record {
  kind = c.kind;
  severity = (let h = c.severity in ground arith);
  confidence = (let h = c.confidence in ground arith);
  listed =
      append_unique_strings-has path current.files m.files ∙ (let h = c.listed in ground arith);
}

pub merged-right :
    (r : Rule) (path : Str) (current m : Mutation)
    → current.kind ≡ r.kind
    → Covers r path m
    → Covers r path (merged current m)
unfolding merged
merged-right r path current m e c = record {
  kind = e;
  severity = (let h = c.severity in ground arith);
  confidence = (let h = c.confidence in ground arith);
  listed =
      append_unique_strings-has path current.files m.files ∙ (let h = c.listed in ground arith);
}
