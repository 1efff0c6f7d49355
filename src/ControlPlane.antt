-- ===== src/ControlPlane.antt =====
-- internal/controlplane/service.go and errors.go over the repository in memory: evidence is updated
-- under a transition table, and each update reconciles the decision and the lane of its packet.
mod Errors
mod Evidence
mod Reconcile
mod Update
mod Listing
mod Cases
pub mod Valid
pub mod Transitions
pub use Errors.{ServiceError, Field, publish_failed}
unfoldable pub use Evidence.{
  valid_evidence_status, can_transition_evidence, find_evidence_requirement,
  current_evidence_status, status_in, statuses_by_name, all_done, or_unset, is_done,
  required_evidence_complete, has_mandatory_reviewers,
}
pub use Reconcile.{Service}
unfoldable pub use Reconcile.{is_blocked, reconciled, reconciled_packet, reconcile_decision}
pub use Update.{Env}
pub use Cases.{Applied, update-cases}
pub use Listing.{Named, status_or}
unfoldable pub use Update.{
  attributed, check_request, completed, audit_of, record_and_reconcile, apply_update, update_found,
  update_evidence_execution,
}
pub mod Sets
pub mod Complete
pub mod Decision
pub mod Audit
pub use Transitions.{stored_status}
unfoldable pub use Transitions.{updates}
pub use Valid.{IsValid}
mod Outcomes
pub mod Calibration
pub mod Http
pub use Outcomes.{Counter, or_zero, is_adverse, Recommendation, Metric}
unfoldable pub use Outcomes.{
  valid_deployment_outcome, source_character, valid_outcome_source, record_deployment_outcome,
  add_calibration, lane_text, risk_type_text, add_risk_types, count_outcomes, recommendation,
  calibration_metrics, risk_calibration_report,
}
pub mod Gate
pub use Http.{Method, Route, Admission, Request, is_get, is_put, is_post, required_role}
unfoldable pub use Http.{
  segments, route_segments, route, is_evidence_update, access_middleware, status_for_error, digits,
  positive_atoi, parse_list_limit, handle_update, handle_outcome, handle, serve,
}
