-- ===== src/Policy/Status.antt =====
-- The status of the decision after the matching rules.
use merger.Prelude.{
  inl, is_empty, ℕ, ◌≡◌, refl, ◌⊎◌, ◌↔◌, true, false, List, [], ◌∷◌, All, arith, if◌then◌else◌,
}
use merger.Text.{str_key}
use merger.Domain.{DecisionStatus, ChangePacket}
use merger.Policy.{
  RuleConfig, Evaluation, matches_rule, apply_status, apply_rule, apply_matching, initial,
  evaluate_rules,
}
use merger.Policy.RuleStatus.{
  has_requirement, asks, has_requirement-apply_rule, status-apply_rule, status-evaluate,
}

abbrev step : ChangePacket → Evaluation → RuleConfig → Evaluation
step p ev rule = if matches_rule rule p then apply_rule ev rule else ev

-- A rule that leaves the decision of a packet alone: it does not match, or it neither blocks nor
-- asks for a reviewer or for evidence.
abbrev pub Undemanding : ChangePacket → RuleConfig → Type 0
Undemanding p rule = matches_rule rule p ≡ true → (rule.action.block ≡ false) × (asks rule ≡ false)

record IsClear (ev : Evaluation) : Type 0 where
  approved : ev.decision.status ≡ DecisionStatus.approved
  no_requirement : has_requirement ev ≡ false

abbrev Consistent : Evaluation → Type 0
Consistent ev = ev.decision.status ≡ DecisionStatus.approved → has_requirement ev ≡ false

step-Consistent :
    (p : ChangePacket) (ev : Evaluation) (rule : RuleConfig)
    → Consistent ev
    → Consistent (step p ev rule)
unfolding apply_status
step-Consistent p ev rule inv h =
    ground (arith, status-apply_rule ev rule, has_requirement-apply_rule ev rule)

Consistent-apply_matching :
    (p : ChangePacket) (rules : List RuleConfig) (ev : Evaluation)
    → Consistent ev
    → Consistent (apply_matching p rules ev)
unfolding apply_matching
Consistent-apply_matching p [] ev inv = inv
Consistent-apply_matching p (rule ∷ rules) ev inv =
    Consistent-apply_matching p rules (step p ev rule) (step-Consistent p ev rule inv)

-- An approved decision comes without a requirement.
pub evaluate_rules-asks_nothing :
    (now : ℕ) (rules : List RuleConfig) (p : ChangePacket)
    → (evaluate_rules now rules p).decision.status ≡ DecisionStatus.approved
    → let ev = evaluate_rules now rules p in
      (is_empty ev.evidence ≡ true) × (is_empty ev.reviewers ≡ true)
unfolding evaluate_rules
evaluate_rules-asks_nothing now rules p h =
    let none_asked = Consistent-apply_matching p rules (initial now) (λ _. refl) h in
    (ground arith, ground arith)

step-back :
    (p : ChangePacket) (ev : Evaluation) (rule : RuleConfig)
    → (step p ev rule).decision.status ≡ DecisionStatus.approved
    → (ev.decision.status ≡ DecisionStatus.approved) × Undemanding p rule
unfolding apply_status
step-back p ev rule h =
    (ground (arith, status-apply_rule ev rule), λ m. ground (arith, status-apply_rule ev rule))

step-IsClear :
    (p : ChangePacket) (ev : Evaluation) (rule : RuleConfig)
    → Undemanding p rule
    → IsClear ev
    → IsClear (step p ev rule)
unfolding apply_status
step-IsClear p ev rule u c =
    ground (arith, status-apply_rule ev rule, has_requirement-apply_rule ev rule)

approved-back :
    (p : ChangePacket) (rules : List RuleConfig) (ev : Evaluation)
    → Consistent ev
    → (apply_matching p rules ev).decision.status ≡ DecisionStatus.approved
    → (ev.decision.status ≡ DecisionStatus.approved) × All (Undemanding p) rules
unfolding apply_matching
approved-back p [] ev inv h = (h, tt)
approved-back p (rule ∷ rules) ev inv h =
    let (now_approved, all) =
      approved-back p rules (step p ev rule) (step-Consistent p ev rule inv) h in
    let (was_approved, one) = step-back p ev rule now_approved in (was_approved, (one, all))

approved-on :
    (p : ChangePacket) (rules : List RuleConfig) (ev : Evaluation)
    → IsClear ev
    → All (Undemanding p) rules
    → (apply_matching p rules ev).decision.status ≡ DecisionStatus.approved
unfolding apply_matching
approved-on p [] ev c all = c.approved
approved-on p (rule ∷ rules) ev c (one, all) =
    approved-on p rules (step p ev rule) (step-IsClear p ev rule one c) all

-- The decision is approved exactly when no matching rule blocks or asks for a reviewer or evidence.
pub evaluate-approved_iff :
    (now : ℕ) (rules : List RuleConfig) (p : ChangePacket)
    → ((evaluate_rules now rules p).decision.status ≡ DecisionStatus.approved)
      ↔ All (Undemanding p) rules
evaluate-approved_iff now rules p = (
  λ h. (approved-back p rules (initial now) (λ _. refl) (rw (status-evaluate now rules p) at h)).1,
  λ all.
      rw (status-evaluate now rules p)
        (approved-on p rules (initial now) (record { approved = refl; no_requirement = refl }) all),
)

-- The statuses that an evaluation can give.
abbrev pub Given : DecisionStatus → Type 0
Given status =
    (status ≡ DecisionStatus.approved)
    ⊎ (status ≡ DecisionStatus.pending)
    ⊎ (status ≡ DecisionStatus.blocked)

Given-step :
    (p : ChangePacket) (rule : RuleConfig) (ev : Evaluation)
    → Given ev.decision.status
    → Given (if matches_rule rule p then apply_rule ev rule else ev).decision.status
unfolding apply_status
Given-step p rule ev g = ground (arith, status-apply_rule ev rule)

Given-apply_matching :
    (p : ChangePacket) (rules : List RuleConfig) (ev : Evaluation)
    → Given ev.decision.status
    → Given (apply_matching p rules ev).decision.status
unfolding apply_matching
Given-apply_matching p [] ev g = g
Given-apply_matching p (rule ∷ rules) ev g = Given-apply_matching p rules _ (Given-step p rule ev g)

pub evaluate_rules-Given :
    (now : ℕ) (rules : List RuleConfig) (p : ChangePacket)
    → Given (evaluate_rules now rules p).decision.status
evaluate_rules-Given now rules p =
    rw (status-evaluate now rules p) (Given-apply_matching p rules (initial now) (inl refl))
