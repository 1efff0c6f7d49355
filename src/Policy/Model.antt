-- ===== src/Policy/Model.antt =====
-- model.go, and `Evaluation` of engine.go.
use merger.Prelude.{ℤ, Bool, List}
use merger.Text.{Str}
use merger.Domain.{
  MutationKind, Criticality, MergeLane, DeploymentStrategy, PolicyDecision, EvidenceRequirement,
  ReviewerRequirement, DeploymentRequirement,
}

pub record WhenClause : Type 0 where
  pub mutations : List MutationKind
  pub paths : List Str
  pub criticalities : List Criticality
  pub risk_score_gte : ℤ
  pub ownership_teams : List Str

-- `GitHubCheckBinding` of package policy.
pub record CheckBinding : Type 0 where
  pub evidence : Str
  pub name : Str
  pub app_id : ℤ

pub record DeploymentClause : Type 0 where
  pub strategy : DeploymentStrategy
  pub requires_canary : Bool
  pub requires_rollback_plan : Bool
  pub environments : List Str

pub record RequirementClause : Type 0 where
  pub reviewers : List Str
  pub evidence : List Str
  pub github_checks : List CheckBinding
  pub deployment : DeploymentClause

pub record ActionClause : Type 0 where
  pub block : Bool
  pub minimum_lane : MergeLane

pub record RuleConfig : Type 0 where
  pub name : Str
  pub description : Str
  pub when : WhenClause
  pub require : RequirementClause
  pub action : ActionClause

pub record Config : Type 0 where
  pub policies : List RuleConfig

pub record Evaluation : Type 0 where
  pub decision : PolicyDecision
  pub evidence : List EvidenceRequirement
  pub reviewers : List ReviewerRequirement
  pub deployment : DeploymentRequirement
