-- ===== src/Risk.antt =====
-- internal/risk: the weighted risk score of a packet, its risks by type, and their severities.
pub mod Score
pub mod Account
use merger.Prelude.{
  ℕ, suc, ◌+◌, Bool, true, false, not, ◌&&◌, ◌||◌, List, [], ◌∷◌, ◌++◌, map, ℤ, pos, ◌==◌, any,
  length, ltb, if◌then◌else◌, MapOrder,
}
use merger.Prelude.Int.{◌+ℤ◌, ltb_ℤ, leb_ℤ}
use merger.Text.{Str, str_key, lit, trim_space}
use merger.Domain.{
  MutationKind, RiskType, risk_key, Severity, Criticality, Mutation, Risk, RiskSummary,
  ChangePacket, ConflictAssessment, ConflictFinding,
}

-- classification.go
abbrev pub risk_type : MutationKind → RiskType
risk_type MutationKind.auth_behavior_change = RiskType.security
risk_type MutationKind.database_schema = RiskType.schema
risk_type MutationKind.runtime_config = RiskType.rollout
risk_type MutationKind.deployment_workflow = RiskType.rollout
risk_type MutationKind.dependency = RiskType.dependency
risk_type MutationKind.data_access = RiskType.runtime
risk_type _ = RiskType.runtime

risk_text : MutationKind → Str
risk_text MutationKind.auth_behavior_change = lit "security control surface changed"
risk_text MutationKind.database_schema = lit "schema compatibility may affect runtime behavior"
risk_text MutationKind.runtime_config = lit "rollout behavior changed"
risk_text MutationKind.deployment_workflow = lit "rollout behavior changed"
risk_text MutationKind.dependency = lit "dependency graph changed"
risk_text MutationKind.data_access = lit "data access behavior changed"
risk_text _ = lit "runtime behavior may have shifted"

risk_mitigations : MutationKind → List Str
risk_mitigations MutationKind.auth_behavior_change =
    lit "security review" ∷ lit "auth integration tests" ∷ []
risk_mitigations MutationKind.database_schema =
    lit "migration plan" ∷ lit "rollback validation" ∷ []
risk_mitigations MutationKind.runtime_config = lit "canary" ∷ lit "runtime smoke tests" ∷ []
risk_mitigations MutationKind.deployment_workflow = lit "canary" ∷ lit "runtime smoke tests" ∷ []
risk_mitigations MutationKind.dependency =
    lit "dependency diff review" ∷ lit "build provenance" ∷ []
risk_mitigations MutationKind.data_access =
    lit "integration tests" ∷ lit "data consistency validation" ∷ []
risk_mitigations _ = lit "integration tests" ∷ []

unfoldable pub classify_risk : MutationKind → RiskType × Str × List Str
unfolding risk_text risk_mitigations
classify_risk kind = (risk_type kind, risk_text kind, risk_mitigations kind)

-- The text of a kind, as the constants of mutation.go spell it.
unfoldable pub kind_text : MutationKind → Str
kind_text MutationKind.unknown = lit "unknown_mutation"
kind_text MutationKind.auth_behavior_change = lit "auth_behavior_change"
kind_text MutationKind.database_schema = lit "database_schema_mutation"
kind_text MutationKind.runtime_config = lit "runtime_config_mutation"
kind_text MutationKind.api_contract = lit "api_contract_mutation"
kind_text MutationKind.dependency = lit "dependency_mutation"
kind_text MutationKind.infrastructure = lit "infrastructure_mutation"
kind_text MutationKind.data_access = lit "data_access_mutation"
kind_text MutationKind.deployment_workflow = lit "deployment_workflow_mutation"
kind_text MutationKind.observability_contract = lit "observability_contract_mutation"
kind_text (MutationKind.other s) = s

-- defaults.go; a kind that is no key has weight 0.
unfoldable pub default_weights : MutationKind → ℤ
default_weights MutationKind.auth_behavior_change = pos 35
default_weights MutationKind.database_schema = pos 32
default_weights MutationKind.runtime_config = pos 20
default_weights MutationKind.api_contract = pos 26
default_weights MutationKind.dependency = pos 15
default_weights MutationKind.infrastructure = pos 28
default_weights MutationKind.data_access = pos 24
default_weights MutationKind.deployment_workflow = pos 24
default_weights MutationKind.observability_contract = pos 12
default_weights MutationKind.unknown = pos 8
default_weights (MutationKind.other _) = pos 0

-- helpers.go
unfoldable pub severity_from_score : ℤ → Severity
severity_from_score score =
    if leb_ℤ (pos 80) score
    then Severity.critical
    else if leb_ℤ (pos 55) score
    then Severity.high
    else if leb_ℤ (pos 25) score
    then Severity.medium
    else Severity.low

unfoldable pub clamp_score : ℤ → ℤ
clamp_score score =
    if ltb_ℤ (pos 100) score then pos 100 else if ltb_ℤ score (pos 0) then pos 0 else score

unfoldable pub append_unique : List Str → List Str → List Str
append_unique values [] = values
append_unique values (candidate ∷ candidates) =
    append_unique
      (if any (λ value. value == candidate) values then values else values ++ candidate ∷ [])
      candidates

new_risk : Mutation → Risk
unfolding classify_risk
new_risk m = record {
  kind = risk_type m.kind;
  score = pos 0;
  severity = m.severity;
  summary = risk_text m.kind;
  reason = [];
  affected_systems = [];
  mitigations = risk_mitigations m.kind;
}

-- `strings.TrimSpace(reason + "; " + text)`
add_reason : Str → Str → Str
add_reason reason text = trim_space (reason ++ (lit "; " ++ text))

charge : ℤ → Mutation → Risk → Risk
unfolding append_unique add_reason kind_text
charge base m current = record current {
  score = current.score +ℤ base;
  reason = add_reason current.reason (lit "mutation=" ++ kind_text m.kind);
  affected_systems = append_unique current.affected_systems m.files;
}

-- `applyMutationRisk` on the map of risks by type, which is the list of its entries.
unfoldable pub apply_mutation_risk : ℤ → Mutation → List Risk → List Risk
unfolding charge new_risk
apply_mutation_risk base m [] = charge base m (new_risk m) ∷ []
apply_mutation_risk base m (r ∷ rs) =
    if r.kind == risk_type m.kind then charge base m r ∷ rs else r ∷ apply_mutation_risk base m rs

-- The loop over the mutations: the sum of the weights, and the risks.
unfoldable pub apply_mutations : (MutationKind → ℤ) → ℤ → List Risk → List Mutation → ℤ × List Risk
unfolding apply_mutation_risk
apply_mutations weights score risks [] = (score, risks)
apply_mutations weights score risks (m ∷ ms) =
    apply_mutations weights (score +ℤ weights m.kind) (apply_mutation_risk (weights m.kind) m risks)
      ms

conflict_reason : List ConflictFinding → Str → Str
unfolding add_reason
conflict_reason [] reason = reason
conflict_reason (f ∷ fs) reason = conflict_reason fs (add_reason reason f.kind)

conflict_systems : List ConflictFinding → List Str → List Str
unfolding append_unique
conflict_systems [] systems = systems
conflict_systems (f ∷ fs) systems = conflict_systems fs (append_unique systems f.paths)

unfoldable pub conflict_risk : ConflictAssessment → Risk
unfolding conflict_reason conflict_systems severity_from_score
conflict_risk c = record {
  kind = RiskType.conflict;
  score = c.score;
  severity = severity_from_score c.score;
  summary = lit "merge conflict or target-branch drift risk detected";
  reason = conflict_reason c.findings [];
  affected_systems = conflict_systems c.findings [];
  mitigations = c.mitigations;
}

-- `riskByType[risk.Type] = risk`
unfoldable pub put_risk : Risk → List Risk → List Risk
put_risk risk [] = risk ∷ []
put_risk risk (r ∷ rs) = if r.kind == risk.kind then risk ∷ rs else r ∷ put_risk risk rs

-- The sum and the risks after the conflict is looked at.
unfoldable pub add_conflict : ConflictAssessment → ℤ × List Risk → ℤ × List Risk
unfolding put_risk conflict_risk
add_conflict c (score, risks) =
    if ltb_ℤ (pos 0) c.score
    then (score +ℤ c.score, put_risk (conflict_risk c) risks)
    else (score, risks)

unfoldable pub collect_risks : (MutationKind → ℤ) → ChangePacket → ℤ × List Risk
unfolding apply_mutations add_conflict
collect_risks weights p = add_conflict p.conflict (apply_mutations weights (pos 0) [] p.mutations)

unfoldable pub apply_runtime_criticality : ℤ → Criticality → ℤ
apply_runtime_criticality score Criticality.high = score +ℤ pos 10
apply_runtime_criticality score Criticality.tier0 = score +ℤ pos 20
apply_runtime_criticality score _ = score

unfoldable pub apply_change_volume : ℤ → ℕ → ℤ
apply_change_volume score file_count = if ltb 20 file_count then score +ℤ pos 8 else score

abbrev pub rate : Risk → Risk
rate r = record r { severity = severity_from_score r.score }

-- The risks in the order in which the map is visited.
unfoldable pub materialize_risks : MapOrder → List Risk → List Risk × List RiskType
unfolding severity_from_score
materialize_risks order risks =
    let visited = order.iterate Risk risks in (map rate visited, map (λ r. r.kind) visited)

-- `Evaluate` of a WeightedEngine; it returns no error.
unfoldable pub evaluate : MapOrder → (MutationKind → ℤ) → ChangePacket → RiskSummary × List Risk
unfolding collect_risks apply_runtime_criticality apply_change_volume clamp_score materialize_risks
evaluate order weights p =
    let (sum, by_type) = collect_risks weights p in
    let score = clamp_score (
      apply_change_volume (apply_runtime_criticality sum p.runtime.criticality) (length p.files)) in
    let (risks, contributors) = materialize_risks order by_type in
    (
      record { score = score; severity = severity_from_score score; contributors = contributors },
      risks,
    )
