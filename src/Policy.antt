-- ===== src/Policy.antt =====
-- internal/policy: rules that match a packet, and what the matching rules require of it.
mod Model
mod Matchers
mod Apply
mod ValidateRule
mod Validate
mod Step
mod Engine
pub mod Loader
pub mod Evidence
mod Accepted
pub mod Bindings
pub mod OrderFree
mod RuleStatus
pub mod Blocks
pub mod Status
pub mod MinimumLane
pub mod Requirements
pub use Model.*
unfoldable pub use Matchers.{
  matches_rule, packet_has_any_mutation, packet_touches_any_path, contains_criticality,
  packet_touches_owners,
}
unfoldable pub use Apply.{
  append_unique_reviewer, append_unique_evidence, or_binding, order, max_lane, reason_for,
  required_reviewer, add_reviewers, find_binding, evidence_of, add_evidence, apply_deployment,
  raise_lane, apply_status, violation_of, apply_action, apply_requirements, apply_rule,
  apply_matching, finalize_decision, initial, evaluate_rules,
}
pub use ValidateRule.{RuleError}
pub use Validate.{PolicyError, Seen}
unfoldable pub use ValidateRule.{
  require_non_empty, validate_rule, validate_when_clause, validate_requirements, validate_action,
  validate_bindings, has_condition, has_effect, supported_lane,
}
unfoldable pub use Validate.{
  bound_evidence, bound_check, same_binding, clashes, bind_check, or_rule_error, add_name,
  name_taken, bind_checks, validate_policy, validate_policies, nothing_seen, validate, error_of,
}
unfoldable pub use Apply.{reason_for, set_strategy, named_decision}
unfoldable pub use Engine.{evaluate}
pub use Engine.{evaluate-ok}
