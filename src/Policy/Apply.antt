-- ===== src/Policy/Apply.antt =====
-- evaluation.go, helpers.go and `RuleEngine.Evaluate` of engine.go after validation.
use merger.Prelude.{
  ℕ, Bool, true, false, not, ◌||◌, List, [], ◌∷◌, ◌++◌, Option, none, some, ◌==◌, any, ltb,
  is_empty, if◌then◌else◌,
}
use merger.Text.{Str, str_key, lit, equal_fold, join}
use merger.Domain.{
  MergeLane, DecisionStatus, Severity, DeploymentStrategy, GitHubCheckBinding, ChangePacket,
  EvidenceRequirement, ReviewerRequirement, PolicyDecision, PolicyViolation, DeploymentRequirement,
}
use merger.Policy.Model.{RuleConfig, CheckBinding, Evaluation}
use merger.Policy.Matchers.{matches_rule}

unfoldable pub append_unique_reviewer :
    List ReviewerRequirement → ReviewerRequirement → List ReviewerRequirement
append_unique_reviewer values candidate =
    if any (λ value. equal_fold value.team candidate.team) values
    then values
    else values ++ candidate ∷ []

abbrev pub or_binding :
    Option GitHubCheckBinding → Option GitHubCheckBinding → Option GitHubCheckBinding
or_binding none candidate = candidate
or_binding (some b) candidate = some b

-- The loop of `appendUniqueEvidence`; the slot that has the candidate's name takes its binding if
-- it has none.
unfoldable pub append_unique_evidence :
    List EvidenceRequirement → EvidenceRequirement → List EvidenceRequirement
append_unique_evidence [] candidate = candidate ∷ []
append_unique_evidence (value ∷ values) candidate =
    if value.name == candidate.name
    then record value { github_check = or_binding value.github_check candidate.github_check }
      ∷ values
    else value ∷ append_unique_evidence values candidate

-- The map `order` of policy's `maxLane`.
unfoldable pub order : MergeLane → ℕ
order MergeLane.green = 1
order MergeLane.yellow = 2
order MergeLane.red = 3
order MergeLane.black = 4
order _ = 0

-- Unlike that of the lanes package it tests its first argument for the empty lane.
unfoldable pub max_lane : MergeLane → MergeLane → MergeLane
unfolding order
max_lane MergeLane.unset b = b
max_lane a b = if ltb (order a) (order b) then b else a

unfoldable pub reason_for : Str → Str
reason_for name = lit "required by policy " ++ name

unfoldable pub required_reviewer : Str → Str → ReviewerRequirement
unfolding reason_for
required_reviewer rule team = record { team = team; reason = reason_for rule; mandatory = true }

unfoldable pub add_reviewers : Str → List Str → List ReviewerRequirement → List ReviewerRequirement
unfolding append_unique_reviewer required_reviewer
add_reviewers rule [] values = values
add_reviewers rule (team ∷ teams) values =
    add_reviewers rule teams (append_unique_reviewer values (required_reviewer rule team))

-- The first binding of the rule for this evidence.
unfoldable pub find_binding : Str → List CheckBinding → Option GitHubCheckBinding
find_binding evidence [] = none
find_binding evidence (b ∷ bs) =
    if b.evidence == evidence
    then some (record { name = b.name; app_id = b.app_id })
    else find_binding evidence bs

unfoldable pub evidence_of : RuleConfig → Str → EvidenceRequirement
unfolding find_binding reason_for
evidence_of rule evidence = record {
  kind = evidence;
  name = evidence;
  required = true;
  reason = reason_for rule.name;
  producer = lit "policy-engine";
  github_check = find_binding evidence rule.require.github_checks;
}

unfoldable pub add_evidence :
    RuleConfig → List Str → List EvidenceRequirement → List EvidenceRequirement
unfolding append_unique_evidence evidence_of
add_evidence rule [] values = values
add_evidence rule (e ∷ es) values =
    add_evidence rule es (append_unique_evidence values (evidence_of rule e))

unfoldable pub set_strategy : DeploymentStrategy → DeploymentStrategy → DeploymentStrategy
set_strategy current DeploymentStrategy.unset = current
set_strategy current strategy = strategy

unfoldable pub apply_deployment : DeploymentRequirement → RuleConfig → DeploymentRequirement
unfolding set_strategy
apply_deployment d rule =
    let clause = rule.require.deployment in
    record {
      strategy = set_strategy d.strategy clause.strategy;
      environments = d.environments ++ clause.environments;
      requires_canary = d.requires_canary || clause.requires_canary;
      requires_rollback_plan = d.requires_rollback_plan || clause.requires_rollback_plan;
    }

unfoldable pub raise_lane : MergeLane → MergeLane → MergeLane
unfolding max_lane
raise_lane current MergeLane.unset = current
raise_lane current minimum = max_lane current minimum

-- `applyPolicyAction`, after the lane: a block returns before the requirements are looked at.
unfoldable pub apply_status : Bool → Bool → DecisionStatus → DecisionStatus
apply_status block required status =
    if block then DecisionStatus.blocked else if required then DecisionStatus.pending else status

abbrev pub violation_of : RuleConfig → PolicyViolation
violation_of rule = record {
  policy = rule.name;
  reason = lit "policy blocked change propagation";
  severity = Severity.critical;
}

unfoldable pub apply_action : Evaluation → RuleConfig → PolicyDecision
unfolding raise_lane apply_status
apply_action ev rule =
    let d = ev.decision in
    let required = not (is_empty ev.reviewers) || not (is_empty ev.evidence) in
    record d {
      minimum_lane = raise_lane d.minimum_lane rule.action.minimum_lane;
      status = apply_status rule.action.block required d.status;
      violations =
          if rule.action.block then d.violations ++ violation_of rule ∷ [] else d.violations;
    }

unfoldable pub named_decision : PolicyDecision → RuleConfig → PolicyDecision
named_decision d rule = record d {
  applied_policies = d.applied_policies ++ rule.name ∷ [];
  reasons = if is_empty rule.description then d.reasons else d.reasons ++ rule.description ∷ [];
}

-- `applyRule` up to the action.
unfoldable pub apply_requirements : Evaluation → RuleConfig → Evaluation
unfolding named_decision add_reviewers add_evidence apply_deployment
apply_requirements ev rule = record {
  decision = named_decision ev.decision rule;
  reviewers = add_reviewers rule.name rule.require.reviewers ev.reviewers;
  evidence = add_evidence rule rule.require.evidence ev.evidence;
  deployment = apply_deployment ev.deployment rule;
}

unfoldable pub apply_rule : Evaluation → RuleConfig → Evaluation
unfolding apply_requirements apply_action
apply_rule ev rule =
    let required = apply_requirements ev rule in
    record required { decision = apply_action required rule }

-- The loop of `Evaluate`: rules that do not match are passed over.
unfoldable pub apply_matching : ChangePacket → List RuleConfig → Evaluation → Evaluation
apply_matching p [] ev = ev
apply_matching p (rule ∷ rules) ev =
    apply_matching p rules (if matches_rule rule p then apply_rule ev rule else ev)

unfoldable pub finalize_decision : Evaluation → Evaluation
finalize_decision ev =
    let summary = join (lit "; ") ev.decision.reasons in
    record ev {
      decision = record ev.decision {
        summary = if is_empty summary then lit "no blocking policy constraints" else summary;
      };
    }

-- `now` is the time that `time.Now` returns.
abbrev pub initial : ℕ → Evaluation
initial now = record {
  decision = record {
    status = DecisionStatus.approved;
    summary = [];
    reasons = [];
    violations = [];
    applied_policies = [];
    minimum_lane = MergeLane.unset;
    decided_at = now;
  };
  evidence = [];
  reviewers = [];
  deployment = record {
    strategy = DeploymentStrategy.direct;
    environments = [];
    requires_canary = false;
    requires_rollback_plan = false;
  };
}

-- `Evaluate` on a configuration that has passed validation.
unfoldable pub evaluate_rules : ℕ → List RuleConfig → ChangePacket → Evaluation
unfolding apply_matching apply_rule finalize_decision
evaluate_rules now rules p = finalize_decision (apply_matching p rules (initial now))
