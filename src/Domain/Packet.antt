-- ===== src/Domain/Packet.antt =====
-- The records of internal/domain. Times are nanoseconds, 0 the zero time; an absent pointer is
-- `none`; a map from strings is an association list; confidences are in thousandths.
use merger.Prelude.{ℕ, ℤ, Bool, Option, List}
use merger.Text.{Str}
use merger.Domain.Kinds.{
  Severity, MutationKind, RiskType, Criticality, BlastRadius, ConflictRoute, MergeLane,
  DecisionStatus, EvidenceStatus, OutcomeKind, DeploymentStrategy, FileStatus,
}

-- actor.go
pub record Author : Type 0 where
  pub login : Str
  pub display_name : Str
  pub email : Str
  pub kind : Str

pub record ChangedFile : Type 0 where
  pub path : Str
  pub previous_path : Str
  pub language : Str
  pub status : FileStatus
  pub additions : ℕ
  pub deletions : ℕ
  pub changes : ℕ
  pub patch : Str

-- mutation.go
pub record MutationSignal : Type 0 where
  pub source : Str
  pub value : Str
  pub weight : ℕ

pub record Mutation : Type 0 where
  pub id : Str
  pub kind : MutationKind
  pub severity : Severity
  pub confidence : ℕ
  pub title : Str
  pub description : Str
  pub files : List Str
  pub signals : List MutationSignal
  pub detector : Str

-- risk.go
pub record Risk : Type 0 where
  pub kind : RiskType
  pub score : ℤ
  pub severity : Severity
  pub summary : Str
  pub reason : Str
  pub affected_systems : List Str
  pub mitigations : List Str

-- change_packet.go
pub record RepoRef : Type 0 where
  pub owner : Str
  pub name : Str
  pub full_name : Str

pub record PullRequestRef : Type 0 where
  pub number : ℤ
  pub url : Str
  pub head_sha : Str
  pub base_sha : Str

pub record RiskSummary : Type 0 where
  pub score : ℤ
  pub severity : Severity
  pub contributors : List RiskType

-- conflict.go
pub record ConflictFinding : Type 0 where
  pub kind : Str
  pub severity : Severity
  pub summary : Str
  pub paths : List Str

pub record ConflictAssessment : Type 0 where
  pub base_sha : Str
  pub current_base_sha : Str
  pub route : ConflictRoute
  pub score : ℤ
  pub requires_human_resolution : Bool
  pub findings : List ConflictFinding
  pub mitigations : List Str

-- decision.go
pub record GitHubCheckBinding : Type 0 where
  pub name : Str
  pub app_id : ℤ

pub record EvidenceRequirement : Type 0 where
  pub kind : Str
  pub name : Str
  pub required : Bool
  pub reason : Str
  pub producer : Str
  pub github_check : Option GitHubCheckBinding

pub record PolicyViolation : Type 0 where
  pub policy : Str
  pub reason : Str
  pub severity : Severity

pub record PolicyDecision : Type 0 where
  pub status : DecisionStatus
  pub summary : Str
  pub reasons : List Str
  pub violations : List PolicyViolation
  pub applied_policies : List Str
  pub minimum_lane : MergeLane
  pub decided_at : ℕ

-- review.go
pub record ReviewerRequirement : Type 0 where
  pub team : Str
  pub reason : Str
  pub mandatory : Bool

pub record DeploymentRequirement : Type 0 where
  pub strategy : DeploymentStrategy
  pub environments : List Str
  pub requires_canary : Bool
  pub requires_rollback_plan : Bool

-- runtime.go
pub record SystemRef : Type 0 where
  pub kind : Str
  pub name : Str
  pub owner : Str
  pub criticality : Criticality

pub record RuntimeImpact : Type 0 where
  pub blast_radius : BlastRadius
  pub criticality : Criticality
  pub services : List SystemRef
  pub notes : List Str

pub record OwnershipBoundary : Type 0 where
  pub domain : Str
  pub team : Str
  pub systems : List Str
  pub critical : Bool

-- execution.go
pub record EvidenceExecution : Type 0 where
  pub change_packet_id : Str
  pub name : Str
  pub kind : Str
  pub status : EvidenceStatus
  pub required : Bool
  pub summary : Str
  pub details_url : Str
  pub updated_by : Str
  pub metadata : List (Str × Str)
  pub updated_at : ℕ

pub record EvidenceAuditEntry : Type 0 where
  pub id : Str
  pub change_packet_id : Str
  pub evidence_name : Str
  pub from_status : EvidenceStatus
  pub to_status : EvidenceStatus
  pub actor : Str
  pub summary : Str
  pub details_url : Str
  pub metadata : List (Str × Str)
  pub occurred_at : ℕ

pub record DeploymentOutcome : Type 0 where
  pub id : Str
  pub change_packet_id : Str
  pub outcome : OutcomeKind
  pub source : Str
  pub lane : MergeLane
  pub risk_types : List RiskType
  pub observed_at : ℕ

pub record ChangePacket : Type 0 where
  pub id : Str
  pub repo : RepoRef
  pub pr : PullRequestRef
  pub author : Author
  pub title : Str
  pub summary : Str
  pub source : Str
  pub files : List ChangedFile
  pub mutations : List Mutation
  pub risks : List Risk
  pub risk_summary : RiskSummary
  pub conflict : ConflictAssessment
  pub evidence : List EvidenceRequirement
  pub runtime : RuntimeImpact
  pub ownership : List OwnershipBoundary
  pub reviewers : List ReviewerRequirement
  pub deployment : DeploymentRequirement
  pub merge_lane : MergeLane
  pub decision : PolicyDecision
  pub metadata : List (Str × Str)
  pub created_at : ℕ
  pub updated_at : ℕ
