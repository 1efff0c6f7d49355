-- ===== src/Mutations/Keeps.antt =====
-- What the classification does not lose from its index.
use merger.Prelude.{
  ℕ, ◌≡◌, refl, Bool, true, false, not, ◌&&◌, List, [], ◌∷◌, is_empty, if◌then◌else◌, lookup, ok,
  bind-ok, Bool-cases, inl, inr,
}
use mathlib.Core.Path.{subst}
use merger.Text.{Str, str_key}
use merger.Domain.{ChangedFile, Mutation, kind_key, MutationSignal}
use merger.Mutations.Rules.{Rule, matches}
use merger.Mutations.Extract.{extract_signals}
use merger.Mutations.Index.{Ids, add_mutation}
use merger.Mutations.Engine.{
  Analyzer, RuleBasedEngine, Content, of_rule, draw, apply_rules, apply_mutations, apply_analyzers,
  classify_files, with_fallback,
}
use merger.Mutations.Covers.{Indexed}
use merger.Mutations.Entries.{WellKinded, entered-WellKinded, entered-keeps}

-- What a part of the classification does to the index.
pub record Keeps (r : Rule) (path : Str) (s s' : Ids) : Type 0 where
  pub kinds : WellKinded s.index → WellKinded s'.index
  pub holds : Indexed r path s.index → Indexed r path s'.index

Keeps-refl : (r : Rule) (path : Str) (s : Ids) → Keeps r path s s
Keeps-refl r path s = record { kinds = λ w. w; holds = λ i. i }

pub Keeps-trans :
    {r : Rule} {path : Str} {a b c : Ids} → Keeps r path a b → Keeps r path b c → Keeps r path a c
Keeps-trans x y = record { kinds = λ w. y.kinds (x.kinds w); holds = λ i. y.holds (x.holds i) }

add_mutation-Keeps :
    (r : Rule) (path : Str) (ids : ℕ → Str) (s : Ids) (m : Mutation)
    → Keeps r path s (add_mutation ids s m)
unfolding add_mutation
add_mutation-Keeps r path ids s m = record {
  kinds = entered-WellKinded ids s m (lookup m.kind s.index) refl;
  holds = entered-keeps r path ids s m (lookup m.kind s.index) refl;
}

pub add_rule-Keeps :
    (r : Rule) (path : Str) (ids : ℕ → Str) (b : Bool) (s : Ids) (id : Str) (m : Mutation)
    → Keeps r path s (if b then add_mutation ids (draw s) m else s)
add_rule-Keeps r path ids true s id m =
    (let k = add_mutation-Keeps r path ids (draw s) m in
      record { kinds = k.kinds; holds = k.holds })
add_rule-Keeps r path ids false s id m = Keeps-refl r path s

pub apply_rules-Keeps :
    (r : Rule) (path : Str) (ids : ℕ → Str) (rs : List Rule) (f : ChangedFile)
    (signals : List MutationSignal) (s : Ids)
    → Keeps r path s (apply_rules ids rs f signals s)
unfolding apply_rules
apply_rules-Keeps r path ids [] f signals s = Keeps-refl r path s
apply_rules-Keeps r path ids (q ∷ qs) f signals s =
    Keeps-trans
      (add_rule-Keeps r path ids (matches q f.path signals) s (ids s.drawn)
        (of_rule (ids s.drawn) q f signals))
      (apply_rules-Keeps r path ids qs f signals _)

apply_mutations-Keeps :
    (r : Rule) (path : Str) (ids : ℕ → Str) (ms : List Mutation) (s : Ids)
    → Keeps r path s (apply_mutations ids ms s)
unfolding apply_mutations
apply_mutations-Keeps r path ids [] s = Keeps-refl r path s
apply_mutations-Keeps r path ids (m ∷ ms) s =
    Keeps-trans (add_mutation-Keeps r path ids s m) (apply_mutations-Keeps r path ids ms _)

pub apply_analyzers-Keeps :
    (r : Rule) (path : Str) (ids : ℕ → Str) (as' : List Analyzer) (f : ChangedFile) (content : Str)
    (s s' : Ids)
    → apply_analyzers ids as' f content s ≡ ok s'
    → Keeps r path s s'
unfolding apply_analyzers
apply_analyzers-Keeps r path ids [] f content s s' h =
    (let e : s ≡ s' = cc in subst (Keeps r path s) e (Keeps-refl r path s))
apply_analyzers-Keeps r path ids (a ∷ rest) f content s s' h = elim (Bool-cases (a.supports f)) [
  | inl yes' ↦
      let (ms, found, more) =
        bind-ok (a.analyze f content)
          (λ ms. apply_analyzers ids rest f content (apply_mutations ids ms s)) (rw yes' at h) in
      Keeps-trans (apply_mutations-Keeps r path ids ms s)
        (apply_analyzers-Keeps r path ids rest f content _ s' more)
  | inr no' ↦ apply_analyzers-Keeps r path ids rest f content s s' (rw no' at h)
]

pub classify_files-Keeps :
    (r : Rule) (path : Str) (ids : ℕ → Str) (e : RuleBasedEngine) (content : Content)
    (fs : List ChangedFile) (s s' : Ids)
    → classify_files ids e content fs s ≡ ok s'
    → Keeps r path s s'
unfolding classify_files
classify_files-Keeps r path ids e content [] s s' h =
    (let e : s ≡ s' = cc in subst (Keeps r path s) e (Keeps-refl r path s))
classify_files-Keeps r path ids e content (f ∷ fs) s s' h =
    let (signals, extracted, rest) = bind-ok (extract_signals e.extractors f) _ h in
    let (mid, analyzed, more) =
      bind-ok
        (apply_analyzers ids e.analyzers f (content f.path) (apply_rules ids e.rules f signals s)) _
        rest in
    Keeps-trans (apply_rules-Keeps r path ids e.rules f signals s) (
      Keeps-trans (apply_analyzers-Keeps r path ids e.analyzers f (content f.path) _ mid analyzed)
        (classify_files-Keeps r path ids e content fs mid s' more))

pub with_fallback-Keeps :
    (r : Rule) (path : Str) (ids : ℕ → Str) (files : List ChangedFile) (s : Ids)
    → Keeps r path s (with_fallback ids files s)
unfolding with_fallback
with_fallback-Keeps r path ids files s =
    add_rule-Keeps r path ids (is_empty s.index && not (is_empty files)) s (ids s.drawn) _
