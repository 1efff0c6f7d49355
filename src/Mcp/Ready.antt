-- ===== src/Mcp/Ready.antt =====
-- internal/mcpserver/tools.go: what an agent is told about a packet.
use merger.Prelude.{
  ℕ, suc, Bool, true, false, not, ◌&&◌, List, [], ◌∷◌, ◌++◌, Option, ◌==◌, any, is_empty,
  if◌then◌else◌, ltb,
}
use merger.Text.{Str, str_key}
use merger.Domain.{
  ChangePacket, DecisionStatus, MergeLane, EvidenceRequirement, ReviewerRequirement,
  GitHubCheckBinding, DeploymentRequirement,
}
use merger.Lanes.{is_black}

abbrev pub is_approved : DecisionStatus → Bool
is_approved DecisionStatus.approved = true
is_approved _ = false

unfoldable pub required_evidence_count : List EvidenceRequirement → ℕ
required_evidence_count [] = 0
required_evidence_count (e ∷ es) =
    let count = required_evidence_count es in if e.required then suc count else count

unfoldable pub required_reviews : List ReviewerRequirement → List ReviewerRequirement
required_reviews [] = []
required_reviews (r ∷ rs) = let rest = required_reviews rs in if r.mandatory then r ∷ rest else rest

-- The texts of `nextAction`, and the one of a packet that is ready.
pub data NextAction : Type 0 where
  resolve_decision complete_evidence obtain_reviews escalate nothing_unreported : NextAction
  ready_for_merge : NextAction

unfoldable pub next_action : ChangePacket → NextAction
unfolding required_evidence_count required_reviews
next_action p =
    if not (is_approved p.decision.status)
    then NextAction.resolve_decision
    else if ltb 0 (required_evidence_count p.evidence)
    then NextAction.complete_evidence
    else if not (is_empty (required_reviews p.reviewers))
    then NextAction.obtain_reviews
    else if is_black p.merge_lane
    then NextAction.escalate
    else NextAction.nothing_unreported

-- A blocker carries what its text quotes.
pub data Blocker : Type 0 where
  policy_decision : DecisionStatus → Blocker
  evidence_not_verified review_not_verified : Str → Blocker
  needs_escalation : Blocker

abbrev pub has : List Str → Str → Bool
has set name = any (λ s. s == name) set

unfoldable pub evidence_blockers : List Str → List EvidenceRequirement → List Blocker
evidence_blockers completed [] = []
evidence_blockers completed (e ∷ es) =
    let rest = evidence_blockers completed es in
    if e.required && not (has completed e.name)
    then Blocker.evidence_not_verified e.name ∷ rest
    else rest

unfoldable pub review_blockers : List Str → List ReviewerRequirement → List Blocker
review_blockers completed [] = []
review_blockers completed (r ∷ rs) =
    let rest = review_blockers completed rs in
    if r.mandatory && not (has completed r.team)
    then Blocker.review_not_verified r.team ∷ rest
    else rest

unfoldable pub blockers : List Str → List Str → ChangePacket → List Blocker
unfolding evidence_blockers review_blockers
blockers evidence reviews p =
    (if is_approved p.decision.status then [] else Blocker.policy_decision p.decision.status ∷ [])
    ++ (evidence_blockers evidence p.evidence
        ++ (review_blockers reviews p.reviewers
            ++ (if is_black p.merge_lane then Blocker.needs_escalation ∷ [] else [])))

pub record Readiness : Type 0 where
  pub change_packet_id : Str
  pub ready : Bool
  pub merge_lane : MergeLane
  pub decision : DecisionStatus
  pub blockers : List Blocker
  pub next_action : NextAction

-- `toolCheckReadiness`, on the decoded arguments.
unfoldable pub check_readiness : List Str → List Str → ChangePacket → Readiness
unfolding blockers next_action
check_readiness evidence reviews p =
    let found = blockers evidence reviews p in
    record {
      change_packet_id = p.id;
      ready = is_empty found;
      merge_lane = p.merge_lane;
      decision = p.decision.status;
      blockers = found;
      next_action = if is_empty found then NextAction.ready_for_merge else next_action p;
    }

-- A piece of evidence with a check is waited for, any other is run, attached or waived.
pub record Step : Type 0 where
  pub name : Str
  pub kind : Str
  pub reason : Str
  pub producer : Str
  pub trusted_github_check : Option GitHubCheckBinding

pub record Plan : Type 0 where
  pub change_packet_id : Str
  pub merge_lane : MergeLane
  pub decision : DecisionStatus
  pub steps : List Step
  pub deployment : DeploymentRequirement
  pub required_reviews : List ReviewerRequirement

abbrev step_of : EvidenceRequirement → Step
step_of e = record {
  name = e.name;
  kind = e.kind;
  reason = e.reason;
  producer = e.producer;
  trusted_github_check = e.github_check;
}

unfoldable pub steps : List EvidenceRequirement → List Step
steps [] = []
steps (e ∷ es) = let rest = steps es in if e.required then step_of e ∷ rest else rest

-- `toolPlanEvidence`
unfoldable pub plan_evidence : ChangePacket → Plan
unfolding steps required_reviews
plan_evidence p = record {
  change_packet_id = p.id;
  merge_lane = p.merge_lane;
  decision = p.decision.status;
  steps = steps p.evidence;
  deployment = p.deployment;
  required_reviews = required_reviews p.reviewers;
}
