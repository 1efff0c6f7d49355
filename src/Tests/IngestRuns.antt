-- ===== src/Tests/IngestRuns.antt =====
-- Runs of the check reconciliation and of the requests over HTTP.
use merger.Prelude.{
  ℕ, ℤ, pos, ◌≡◌, ◌≢◌, refl, sym, ap, ◌∙◌, List, [], ◌∷◌, Bool, true, false, none, some, Option,
  insertion_order, is_empty,
}
use merger.Text.{Str, lit}
use merger.Domain.{ChangePacket, EvidenceExecution, EvidenceStatus, EvidenceRequirement}
use merger.Access.{Principal, Role}
use merger.Store.{Repository, new_repository, save_change_packet}
use merger.ControlPlane.{Service, Env, stored_status, IsValid, Method, Request, serve}
use merger.ControlPlane.Valid.{new_repository-IsValid, save_change_packet-IsValid}
use merger.ControlPlane.Gate.{Permitted, serve-Permitted}
use merger.Ingest.{CheckRun}
use merger.Ingest.Rerun.{process_runs, process_runs-keep_failed}
use merger.Tests.Fixtures.{blank_packet}

abbrev bound_scan : EvidenceRequirement
bound_scan = record {
  kind = lit "security_scan";
  name = lit "scan";
  required = true;
  reason = [];
  producer = [];
  github_check = some (record { name = lit "sast"; app_id = pos 1 });
}

abbrev stored_repository : Repository
stored_repository =
    save_change_packet 3 new_repository (record blank_packet { evidence = bound_scan ∷ [] })

stored_repository-IsValid : IsValid stored_repository
stored_repository-IsValid =
    save_change_packet-IsValid 3 new_repository (record blank_packet { evidence = bound_scan ∷ [] })
      new_repository-IsValid

abbrev plain_service : Service
plain_service = record { order = insertion_order; lane_assigner = none; check_publisher = none }

abbrev plain_env : Env
plain_env = record { principal = none; now = 4; later = 5; fresh_id = lit "audit" }

abbrev env_of : ℤ → Env
env_of n = plain_env

abbrev concluding : Str → CheckRun
concluding conclusion = record {
  action = lit "completed";
  repo_full_name = lit "o/r";
  id = pos 9;
  name = lit "sast";
  head_sha = lit "h";
  status = lit "completed";
  conclusion = conclusion;
  details_url = [];
  app_id = pos 1;
  title = [];
  summary = [];
  pull_requests = pos 7 ∷ [];
}

abbrev failed_packet : EvidenceExecution
failed_packet = record {
  change_packet_id = lit "cp";
  name = lit "scan";
  kind = [];
  status = EvidenceStatus.failed;
  required = true;
  summary = [];
  details_url = [];
  updated_by = [];
  metadata = [];
  updated_at = 2;
}

abbrev failed_repository : Repository
failed_repository = record new_repository {
  change_packets = (lit "cp", record blank_packet { evidence = bound_scan ∷ [] }) ∷ [];
  evidence_by_cpid = (lit "cp", (lit "scan", failed_packet) ∷ []) ∷ [];
}

failed_before : stored_status failed_repository (lit "cp") (lit "scan") ≡ EvidenceStatus.failed
unfolding lit merger.Prelude.lookup
failed_before = refl

failed_repository-IsValid : IsValid failed_repository
unfolding lit merger.Prelude.lookup
failed_repository-IsValid = record {
  inner = (record { named = (refl, tt); faithful = (refl, tt) }, tt);
  stored = (refl, tt);
}

process_runs-keep_failed_example :
    stored_status
      (process_runs plain_service env_of (concluding (lit "success") ∷ []) failed_repository)
      (lit "cp")
      (lit "scan")
    ≡ EvidenceStatus.failed
process_runs-keep_failed_example =
    process_runs-keep_failed plain_service env_of (concluding (lit "success") ∷ [])
      failed_repository (lit "cp") (lit "scan") failed_repository-IsValid failed_before

abbrev writer : Principal
writer = record { subject = lit "ci"; roles = Role.evidence_writer ∷ [] }

abbrev anyone : Str → Option Principal
anyone header = some writer

abbrev put_request : Request
put_request = record {
  method = Method.put;
  path = lit "/api/v1/change-packets/cp/evidence/scan";
  authorization = lit "Bearer t";
  limit = none;
  evidence_body = some (record failed_packet { status = EvidenceStatus.running });
  outcome_body = none;
}

audited_after :
    is_empty (serve anyone plain_service plain_env put_request stored_repository).1.audit_by_cpid
    ≡ false
unfolding serve lit merger.Access.authorize merger.Text.is_blank merger.Text.split
    merger.Text.trim_prefix merger.Access.has_role merger.Access.Role-discrete
    merger.ControlPlane.update_evidence_execution merger.ControlPlane.valid_evidence_status
    merger.Store.get_change_packet merger.Prelude.lookup save_change_packet merger.Prelude.put
    merger.ControlPlane.find_evidence_requirement merger.ControlPlane.can_transition_evidence
    merger.Domain.EvidenceStatus-discrete merger.ControlPlane.current_evidence_status
    merger.Store.list_evidence_executions merger.Prelude.sort_by merger.Store.record_evidence_update
audited_after = refl

unaudited_before : is_empty stored_repository.audit_by_cpid ≡ true
unfolding save_change_packet
unaudited_before = refl

request_writes :
    (serve anyone plain_service plain_env put_request stored_repository).1 ≢ stored_repository
request_writes e =
    let k : false ≡ true =
      sym audited_after ∙ ap (λ r. is_empty r.audit_by_cpid) e ∙ unaudited_before in
    cc

serve-Permitted_example : Permitted anyone put_request
serve-Permitted_example =
    serve-Permitted anyone plain_service plain_env put_request stored_repository request_writes
