-- ===== src/Policy/RuleStatus.antt =====
-- What one matching rule does to the status of the decision.
use merger.Prelude.{
  ℕ, ◌≡◌, refl, Bool, true, false, not, ◌||◌, ◌&&◌, List, [], ◌∷◌, ◌++◌, is_empty, arith,
}
use merger.Text.{Str, str_key}
use merger.Domain.{DecisionStatus, ChangePacket, ReviewerRequirement, EvidenceRequirement}
use merger.Policy.{
  RuleConfig, Evaluation, append_unique_reviewer, append_unique_evidence, add_reviewers,
  add_evidence, required_reviewer, evidence_of, apply_status, apply_rule, apply_matching, initial,
  evaluate_rules,
}

abbrev pub has_requirement : Evaluation → Bool
has_requirement ev = not (is_empty ev.reviewers) || not (is_empty ev.evidence)

pub is_empty-append {ℓ} : {A : Type ℓ} (xs : List A) (x : A) → is_empty (xs ++ x ∷ []) ≡ false
is_empty-append [] x = refl
is_empty-append (y ∷ xs) x = refl

is_empty-unique_reviewer :
    (values : List ReviewerRequirement) (r : ReviewerRequirement)
    → is_empty (append_unique_reviewer values r) ≡ false
unfolding append_unique_reviewer
is_empty-unique_reviewer [] r = refl
is_empty-unique_reviewer (v ∷ vs) r = ground arith

is_empty-unique_evidence :
    (values : List EvidenceRequirement) (e : EvidenceRequirement)
    → is_empty (append_unique_evidence values e) ≡ false
unfolding append_unique_evidence
is_empty-unique_evidence [] e = refl
is_empty-unique_evidence (v ∷ vs) e = ground arith

is_empty-add_reviewers :
    (rule : Str) (teams : List Str) (values : List ReviewerRequirement)
    → is_empty (add_reviewers rule teams values) ≡ (is_empty teams && is_empty values)
unfolding add_reviewers
is_empty-add_reviewers rule [] values = refl
is_empty-add_reviewers rule (team ∷ teams) values =
    let v = required_reviewer rule team in
    ground (
      arith,
      is_empty-add_reviewers rule teams (append_unique_reviewer values v),
      is_empty-unique_reviewer values v,
    )

is_empty-add_evidence :
    (rule : RuleConfig) (es : List Str) (values : List EvidenceRequirement)
    → is_empty (add_evidence rule es values) ≡ (is_empty es && is_empty values)
unfolding add_evidence
is_empty-add_evidence rule [] values = refl
is_empty-add_evidence rule (e ∷ es) values = ground (
  arith,
  is_empty-add_evidence rule es (append_unique_evidence values (evidence_of rule e)),
  is_empty-unique_evidence values (evidence_of rule e),
)

-- What a rule asks for: the test of `applyPolicyAction`, on the rule itself.
abbrev pub asks : RuleConfig → Bool
asks rule = not (is_empty rule.require.reviewers) || not (is_empty rule.require.evidence)

pub has_requirement-apply_rule :
    (ev : Evaluation) (rule : RuleConfig)
    → has_requirement (apply_rule ev rule) ≡ (asks rule || has_requirement ev)
unfolding apply_rule
has_requirement-apply_rule ev rule = ground (
  arith,
  is_empty-add_reviewers rule.name rule.require.reviewers ev.reviewers,
  is_empty-add_evidence rule rule.require.evidence ev.evidence,
)

pub status-apply_rule :
    (ev : Evaluation) (rule : RuleConfig)
    → (apply_rule ev rule).decision.status
      ≡ apply_status rule.action.block (asks rule || has_requirement ev) ev.decision.status
unfolding apply_rule
status-apply_rule ev rule = ground (
  arith,
  is_empty-add_reviewers rule.name rule.require.reviewers ev.reviewers,
  is_empty-add_evidence rule rule.require.evidence ev.evidence,
)

pub status-evaluate :
    (now : ℕ) (rules : List RuleConfig) (p : ChangePacket)
    → (evaluate_rules now rules p).decision.status
      ≡ (apply_matching p rules (initial now)).decision.status
unfolding evaluate_rules
status-evaluate now rules p = refl

pub pending_now :
    (ev : Evaluation) (rule : RuleConfig)
    → rule.action.block ≡ false
    → asks rule ≡ true
    → (apply_rule ev rule).decision.status ≡ DecisionStatus.pending
unfolding apply_status
pending_now ev rule h k = ground (arith, status-apply_rule ev rule)
