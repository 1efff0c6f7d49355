-- ===== src/Policy/Evidence.antt =====
-- The evidence that an evaluation asks for, and the GitHub check that each piece is bound to.
use merger.Prelude.{
  ℕ, ◌≡◌, refl, ap, Bool, List, [], ◌∷◌, any, arith, ◌||◌, ◌&&◌, Option, none, if◌then◌else◌, ◌==◌,
  eq→≡, eq_refl, Bool-cases, inl, inr,
}
use merger.Text.{Str, str_key}
use merger.Domain.{ChangePacket, EvidenceRequirement, GitHubCheckBinding}
use merger.Policy.Step.{apply_matching-hit, apply_matching-miss}
use merger.Policy.{
  RuleConfig, Evaluation, matches_rule, append_unique_evidence, or_binding, add_evidence,
  evidence_of, find_binding, apply_rule, apply_matching, initial, evaluate_rules,
}

abbrev pub has_evidence : Str → List EvidenceRequirement → Bool
has_evidence e = any (λ v. v.name == e)

-- The check that the evidence is bound to.
abbrev pub binding_of : Str → List EvidenceRequirement → Option GitHubCheckBinding
binding_of e [] = none
binding_of e (v ∷ vs) = if v.name == e then v.github_check else binding_of e vs

has_unique :
    (e : Str) (values : List EvidenceRequirement) (c : EvidenceRequirement)
    → has_evidence e (append_unique_evidence values c) ≡ (has_evidence e values || c.name == e)
unfolding append_unique_evidence
has_unique e [] c = ground arith
has_unique e (v ∷ vs) c = ground (arith, has_unique e vs c, eq→≡ v.name c.name)

binding_unique :
    (e : Str) (values : List EvidenceRequirement) (c : EvidenceRequirement)
    → binding_of e (append_unique_evidence values c) ≡ (
        if c.name == e
        then or_binding (binding_of e values) c.github_check
        else binding_of e values)
unfolding append_unique_evidence
binding_unique e [] c = ground arith
binding_unique e (v ∷ vs) c =
    ground
      (arith, binding_unique e vs c, eq→≡ v.name c.name, eq→≡ c.name e, eq→≡ v.name e, eq_refl e)

abbrev pub or_same : Bool → Option GitHubCheckBinding → Option GitHubCheckBinding
or_same b o = if b then o else none

abbrev pub listed : Str → List Str → Bool
listed e = any (λ x. x == e)

has-add_evidence :
    (e : Str) (rule : RuleConfig) (es : List Str) (values : List EvidenceRequirement)
    → has_evidence e (add_evidence rule es values) ≡ (has_evidence e values || listed e es)
unfolding add_evidence evidence_of
has-add_evidence e rule [] values = ground arith
has-add_evidence e rule (x ∷ xs) values =
    let c = evidence_of rule x in
    ground
      (arith, has-add_evidence e rule xs (append_unique_evidence values c), has_unique e values c)

name-evidence_of : (rule : RuleConfig) (x : Str) → (evidence_of rule x).name ≡ x
unfolding evidence_of
name-evidence_of rule x = refl

check-evidence_of :
    (rule : RuleConfig) (x : Str)
    → (evidence_of rule x).github_check ≡ find_binding x rule.require.github_checks
check-evidence_of rule x = unfold evidence_of in refl

binding-add_evidence :
    (e : Str) (rule : RuleConfig) (es : List Str) (values : List EvidenceRequirement)
    → binding_of e (add_evidence rule es values)
      ≡ or_binding
          (binding_of e values)
          (or_same (listed e es) (find_binding e rule.require.github_checks))
unfolding add_evidence
binding-add_evidence e rule [] values = ground arith
binding-add_evidence e rule (x ∷ xs) values =
    let c = evidence_of rule x in
    ground (
      arith,
      binding-add_evidence e rule xs (append_unique_evidence values c),
      binding_unique e values c,
      name-evidence_of rule x,
      check-evidence_of rule x,
      eq→≡ x e,
    )

-- Some matching rule asks for the evidence.
abbrev pub evidence_demanded : Str → ChangePacket → List RuleConfig → Bool
evidence_demanded e p = any (λ r. matches_rule r p && listed e r.require.evidence)

-- The first binding of the evidence among the matching rules that ask for it.
abbrev pub binding_demanded : Str → ChangePacket → List RuleConfig → Option GitHubCheckBinding
binding_demanded e p [] = none
binding_demanded e p (r ∷ rs) =
    or_binding
      (or_same (matches_rule r p && listed e r.require.evidence)
        (find_binding e r.require.github_checks))
      (binding_demanded e p rs)

evidence-apply_rule :
    (ev : Evaluation) (rule : RuleConfig)
    → (apply_rule ev rule).evidence ≡ add_evidence rule rule.require.evidence ev.evidence
unfolding apply_rule
evidence-apply_rule ev rule = refl

has-apply_matching :
    (e : Str) (p : ChangePacket) (rules : List RuleConfig) (ev : Evaluation)
    → has_evidence e (apply_matching p rules ev).evidence
      ≡ (has_evidence e ev.evidence || evidence_demanded e p rules)
has-apply_matching e p [] ev = unfold apply_matching in ground arith
has-apply_matching e p (rule ∷ rules) ev = elim (Bool-cases (matches_rule rule p)) [
  | inl hit ↦ rw (apply_matching-hit p rule rules ev hit) (
      ground (
        arith,
        has-apply_matching e p rules (apply_rule ev rule),
        ap (has_evidence e) (evidence-apply_rule ev rule),
        has-add_evidence e rule rule.require.evidence ev.evidence,
      ))
  | inr miss ↦
      rw (apply_matching-miss p rule rules ev miss)
        (ground (arith, has-apply_matching e p rules ev))
]

binding-apply_matching :
    (e : Str) (p : ChangePacket) (rules : List RuleConfig) (ev : Evaluation)
    → binding_of e (apply_matching p rules ev).evidence
      ≡ or_binding (binding_of e ev.evidence) (binding_demanded e p rules)
binding-apply_matching e p [] ev = unfold apply_matching in ground arith
binding-apply_matching e p (rule ∷ rules) ev = elim (Bool-cases (matches_rule rule p)) [
  | inl hit ↦ rw (apply_matching-hit p rule rules ev hit) (
      ground (
        arith,
        binding-apply_matching e p rules (apply_rule ev rule),
        ap (binding_of e) (evidence-apply_rule ev rule),
        binding-add_evidence e rule rule.require.evidence ev.evidence,
      ))
  | inr miss ↦
      rw (apply_matching-miss p rule rules ev miss)
        (ground (arith, binding-apply_matching e p rules ev))
]

pub evaluate-evidence :
    (now : ℕ) (rules : List RuleConfig) (p : ChangePacket) (e : Str)
    → (has_evidence e (evaluate_rules now rules p).evidence ≡ evidence_demanded e p rules)
      × (binding_of e (evaluate_rules now rules p).evidence ≡ binding_demanded e p rules)
unfolding evaluate_rules
evaluate-evidence now rules p e =
    (has-apply_matching e p rules (initial now), binding-apply_matching e p rules (initial now))
