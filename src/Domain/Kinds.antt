-- ===== src/Domain/Kinds.antt =====
-- The string types of internal/domain with their constants.
use merger.Prelude.{ℕ_discrete, Key}
use merger.Text.{Str}

-- mutation.go
pub data Severity : Type 0 where
  low medium high critical : Severity
  other : Str → Severity

pub data MutationKind : Type 0 where
  unknown auth_behavior_change database_schema runtime_config api_contract : MutationKind
  dependency infrastructure data_access deployment_workflow : MutationKind
  observability_contract : MutationKind
  other : Str → MutationKind

-- risk.go
pub data RiskType : Type 0 where
  runtime security schema dependency rollout ownership conflict : RiskType
  other : Str → RiskType

-- runtime.go
pub data Criticality : Type 0 where
  low normal high tier0 : Criticality
  unset : Criticality
  other : Str → Criticality

pub data BlastRadius : Type 0 where
  unset unknown isolated localized systemic : BlastRadius

-- conflict.go
pub data ConflictRoute : Type 0 where
  unset none refresh_and_verify human_resolution : ConflictRoute

-- decision.go
pub data MergeLane : Type 0 where
  unset green yellow red black : MergeLane
  other : Str → MergeLane

pub data DecisionStatus : Type 0 where
  pending approved escalated blocked : DecisionStatus
  other : Str → DecisionStatus

-- execution.go
pub data EvidenceStatus : Type 0 where
  unset pending running satisfied failed waived : EvidenceStatus
  other : Str → EvidenceStatus

pub data OutcomeKind : Type 0 where
  success rollback incident : OutcomeKind
  other : Str → OutcomeKind

-- review.go
pub data DeploymentStrategy : Type 0 where
  unset direct canary phased manual_approval : DeploymentStrategy
  other : Str → DeploymentStrategy

-- actor.go
pub data FileStatus : Type 0 where
  added modified removed renamed : FileStatus

unfoldable pub MutationKind-discrete : Discrete MutationKind
MutationKind-discrete = hlevel ℕ_discrete

instance abbrev pub kind_key : Key MutationKind
kind_key = record { dec = MutationKind-discrete }

unfoldable pub RiskType-discrete : Discrete RiskType
RiskType-discrete = hlevel ℕ_discrete

instance abbrev pub risk_key : Key RiskType
risk_key = record { dec = RiskType-discrete }

unfoldable pub Criticality-discrete : Discrete Criticality
Criticality-discrete = hlevel ℕ_discrete

instance abbrev pub criticality_key : Key Criticality
criticality_key = record { dec = Criticality-discrete }

unfoldable pub EvidenceStatus-discrete : Discrete EvidenceStatus
EvidenceStatus-discrete = hlevel ℕ_discrete

instance abbrev pub status_key : Key EvidenceStatus
status_key = record { dec = EvidenceStatus-discrete }
