-- ===== src/Policy/ValidateRule.antt =====
-- validation.go: the checks of one rule.
use merger.Prelude.{
  ℕ, suc, Bool, true, false, not, ◌||◌, List, [], ◌∷◌, Option, none, some, ℤ, pos, ◌==◌, any,
  is_empty, if◌then◌else◌, first_error,
}
use merger.Prelude.Int.{ltb_ℤ, leb_ℤ, int_key}
use merger.Text.{Str, str_key, is_blank}
use merger.Domain.{MutationKind, Criticality, MergeLane, DeploymentStrategy}
use merger.Policy.Model.{RuleConfig, WhenClause, RequirementClause, ActionClause, CheckBinding}

pub data ListField : Type 0 where
  path ownership_team reviewer evidence_name deployment_environment : ListField

pub data RuleError : Type 0 where
  no_condition no_effect bad_risk_score : RuleError
  unsupported_kind : MutationKind → RuleError
  unsupported_criticality : Criticality → RuleError
  empty_entry : ListField → ℕ → RuleError
  incomplete_binding bad_app_id : ℕ → RuleError
  undeclared_evidence duplicate_binding : ℕ → Str → RuleError
  unsupported_strategy : DeploymentStrategy → RuleError
  unsupported_lane : MergeLane → RuleError

abbrev pub supported_kind : MutationKind → Bool
supported_kind (MutationKind.other _) = false
supported_kind _ = true

abbrev pub supported_criticality : Criticality → Bool
supported_criticality Criticality.unset = false
supported_criticality (Criticality.other _) = false
supported_criticality _ = true

abbrev pub supported_lane : MergeLane → Bool
supported_lane MergeLane.unset = false
supported_lane (MergeLane.other _) = false
supported_lane _ = true

abbrev pub supported_strategy : DeploymentStrategy → Bool
supported_strategy DeploymentStrategy.unset = false
supported_strategy (DeploymentStrategy.other _) = false
supported_strategy _ = true

unfoldable pub require_non_empty : ListField → ℕ → List Str → Option RuleError
require_non_empty field index [] = none
require_non_empty field index (value ∷ values) =
    first_error (if is_blank value then some (empty_entry field index) else none)
      (require_non_empty field (suc index) values)

validate_kinds : List MutationKind → Option RuleError
validate_kinds [] = none
validate_kinds (kind ∷ kinds) =
    first_error (if supported_kind kind then none else some (unsupported_kind kind))
      (validate_kinds kinds)

validate_criticalities : List Criticality → Option RuleError
validate_criticalities [] = none
validate_criticalities (c ∷ cs) =
    first_error (if supported_criticality c then none else some (unsupported_criticality c))
      (validate_criticalities cs)

unfoldable pub validate_when_clause : WhenClause → Option RuleError
unfolding validate_kinds validate_criticalities require_non_empty
validate_when_clause when = first_error (validate_kinds when.mutations) (
    first_error (validate_criticalities when.criticalities) (
      first_error
        (if ltb_ℤ when.risk_score_gte (pos 0) || ltb_ℤ (pos 100) when.risk_score_gte
          then some bad_risk_score
          else none)
        (first_error (require_non_empty path 0 when.paths)
          (require_non_empty ownership_team 0 when.ownership_teams))))

-- The loop over `require.GitHubChecks`: `declared` and `bound` are the keys of its two maps.
unfoldable pub validate_bindings : List Str → List Str → ℕ → List CheckBinding → Option RuleError
validate_bindings declared bound index [] = none
validate_bindings declared bound index (b ∷ bs) =
    first_error
      (if is_blank b.evidence || is_blank b.name
        then some (incomplete_binding index)
        else if leb_ℤ b.app_id (pos 0)
        then some (bad_app_id index)
        else if not (any (λ e. e == b.evidence) declared)
        then some (undeclared_evidence index b.evidence)
        else if any (λ e. e == b.evidence) bound
        then some (duplicate_binding index b.evidence)
        else none)
      (validate_bindings declared (b.evidence ∷ bound) (suc index) bs)

abbrev validate_strategy : DeploymentStrategy → Option RuleError
validate_strategy DeploymentStrategy.unset = none
validate_strategy s = if supported_strategy s then none else some (unsupported_strategy s)

unfoldable pub validate_requirements : RequirementClause → Option RuleError
unfolding require_non_empty validate_bindings
validate_requirements r = first_error (require_non_empty reviewer 0 r.reviewers) (
    first_error (require_non_empty evidence_name 0 r.evidence) (
      first_error (validate_bindings r.evidence [] 0 r.github_checks) (
        first_error (require_non_empty deployment_environment 0 r.deployment.environments)
          (validate_strategy r.deployment.strategy))))

unfoldable pub validate_action : ActionClause → Option RuleError
validate_action action = elim action.minimum_lane [
  | MergeLane.unset ↦ none
  | lane ↦ if supported_lane lane then none else some (unsupported_lane lane)
]

abbrev is_zero : ℤ → Bool
is_zero z = z == pos 0

unfoldable pub has_condition : WhenClause → Bool
has_condition when =
    not (is_empty when.mutations)
    || (not (is_empty when.paths)
        || (not (is_empty when.criticalities)
            || (not (is_zero when.risk_score_gte) || not (is_empty when.ownership_teams))))

abbrev is_unset_lane : MergeLane → Bool
is_unset_lane MergeLane.unset = true
is_unset_lane _ = false

abbrev is_unset_strategy : DeploymentStrategy → Bool
is_unset_strategy DeploymentStrategy.unset = true
is_unset_strategy _ = false

unfoldable pub has_effect : RuleConfig → Bool
has_effect rule =
    let r = rule.require in
    let d = r.deployment in
    not (is_empty r.reviewers)
    || (not (is_empty r.evidence)
        || (not (is_empty r.github_checks)
            || (not (is_unset_strategy d.strategy)
                || (d.requires_canary
                    || (d.requires_rollback_plan
                        || (not (is_empty d.environments)
                            || (rule.action.block
                                || not (is_unset_lane rule.action.minimum_lane))))))))

unfoldable pub validate_rule : RuleConfig → Option RuleError
unfolding has_condition has_effect validate_when_clause validate_requirements validate_action
validate_rule rule = first_error (if has_condition rule.when then none else some no_condition) (
    first_error (if has_effect rule then none else some no_effect) (
      first_error (validate_when_clause rule.when)
        (first_error (validate_requirements rule.require) (validate_action rule.action))))
