-- ===== src/Tests/EvidenceRuns.antt =====
-- Runs of the evidence updates.
use merger.Prelude.{
  ℕ, ℤ, pos, ◌≡◌, ◌≢◌, refl, List, [], ◌∷◌, true, false, none, some, ok, err, arith,
  insertion_order, lookup,
}
use merger.Text.{Str, lit, is_blank, str_key}
use merger.Domain.{
  MergeLane, DecisionStatus, ChangePacket, EvidenceExecution, EvidenceStatus, EvidenceRequirement,
}
use merger.Store.{Repository, new_repository, save_change_packet, get_change_packet}
use merger.ControlPlane.{
  Service, Env, update_evidence_execution, can_transition_evidence, is_done, updates, stored_status,
  IsValid,
}
use merger.ControlPlane.{ServiceError, Field, publish_failed}
use merger.ControlPlane.Valid.{new_repository-IsValid, save_change_packet-IsValid}
use merger.ControlPlane.Transitions.{update-legal, update-IsValid, updates-keep_done}
use merger.ControlPlane.Audit.{update-refused, update-waived_actor, actor_of}
use merger.ControlPlane.Complete.{IsComplete}
use merger.ControlPlane.Decision.{update-green_complete}
use merger.Tests.Fixtures.{blank_packet}

abbrev scan : EvidenceRequirement
scan = record {
  kind = lit "security_scan";
  name = lit "scan";
  required = true;
  reason = [];
  producer = [];
  github_check = none;
}

abbrev scanned_packet : ChangePacket
scanned_packet = record blank_packet { evidence = scan ∷ [] }

abbrev repository : Repository
repository = save_change_packet 3 new_repository scanned_packet

repository-IsValid : IsValid repository
repository-IsValid =
    save_change_packet-IsValid 3 new_repository scanned_packet new_repository-IsValid

abbrev service : Service
service = record {
  order = insertion_order;
  lane_assigner = some (record { green_max = pos 24; yellow_max = pos 59; red_max = pos 84 });
  check_publisher = none;
}

abbrev env : Env
env = record { principal = none; now = 4; later = 5; fresh_id = lit "audit" }

abbrev report : EvidenceStatus → EvidenceExecution
report s = record {
  change_packet_id = lit "cp";
  name = lit "scan";
  kind = [];
  status = s;
  required = false;
  summary = [];
  details_url = [];
  updated_by = lit "ann";
  metadata = [];
  updated_at = 0;
}

abbrev stored : EvidenceExecution
stored = record (report EvidenceStatus.waived) {
  kind = lit "security_scan";
  required = true;
  updated_at = 4;
}

waiver_accepted :
    (update_evidence_execution service env repository (report EvidenceStatus.waived)).0 ≡ ok stored
unfolding update_evidence_execution lit is_blank merger.ControlPlane.valid_evidence_status
    get_change_packet lookup save_change_packet merger.Prelude.put
    merger.ControlPlane.find_evidence_requirement can_transition_evidence
    merger.Domain.EvidenceStatus-discrete merger.ControlPlane.current_evidence_status
    merger.Store.list_evidence_executions merger.Prelude.sort_by
waiver_accepted = refl

update-legal_example :
    can_transition_evidence (stored_status repository (lit "cp") (lit "scan")) (
      stored_status
        (update_evidence_execution service env repository (report EvidenceStatus.running)).1
        (lit "cp")
        (lit "scan"))
    ≡ true
update-legal_example =
    update-legal service env repository (report EvidenceStatus.running) (lit "cp") (lit "scan")
      repository-IsValid

update-IsValid_example :
    IsValid (update_evidence_execution service env repository (report EvidenceStatus.running)).1
update-IsValid_example =
    update-IsValid service env repository (report EvidenceStatus.running) repository-IsValid

abbrev waived_repository : Repository
waived_repository =
    (update_evidence_execution service env repository (report EvidenceStatus.waived)).1

waived_repository-IsValid : IsValid waived_repository
waived_repository-IsValid =
    update-IsValid service env repository (report EvidenceStatus.waived) repository-IsValid

waived_done : is_done (stored_status waived_repository (lit "cp") (lit "scan")) ≡ true
unfolding update_evidence_execution lit lookup is_blank merger.ControlPlane.valid_evidence_status
    get_change_packet save_change_packet merger.Prelude.put
    merger.ControlPlane.find_evidence_requirement can_transition_evidence
    merger.Domain.EvidenceStatus-discrete merger.ControlPlane.current_evidence_status
    merger.Store.list_evidence_executions merger.Prelude.sort_by merger.Store.record_evidence_update
waived_done = refl

updates-keep_done_example :
    stored_status
      (updates service ((env, report EvidenceStatus.failed) ∷ []) waived_repository)
      (lit "cp")
      (lit "scan")
    ≡ stored_status waived_repository (lit "cp") (lit "scan")
updates-keep_done_example =
    updates-keep_done service ((env, report EvidenceStatus.failed) ∷ []) waived_repository
      (lit "cp") (lit "scan") waived_repository-IsValid waived_done

abbrev misnamed : EvidenceExecution
misnamed = record (report EvidenceStatus.running) { name = [] }

misnamed_refused :
    (update_evidence_execution service env repository misnamed).0
    ≡ err (ServiceError.invalid Field.name)
unfolding update_evidence_execution lit is_blank
misnamed_refused = refl

not_published : (why : Str) → ServiceError.invalid Field.name ≢ publish_failed why
not_published why h = cc

update-refused_example : (update_evidence_execution service env repository misnamed).1 ≡ repository
update-refused_example =
    update-refused service env repository misnamed (ServiceError.invalid Field.name) not_published
      misnamed_refused

update-waived_actor_example :
    (is_blank stored.updated_by ≡ false)
    × (stored.updated_by ≡ actor_of env.principal (report EvidenceStatus.waived).updated_by)
update-waived_actor_example =
    update-waived_actor service env repository (report EvidenceStatus.waived) stored waiver_accepted
      refl

abbrev waived_packet : ChangePacket
waived_packet = record scanned_packet {
  decision = record scanned_packet.decision { decided_at = 5 };
  merge_lane = MergeLane.green;
  updated_at = 5;
}

waived_packet_found :
    get_change_packet
      (update_evidence_execution service env repository (report EvidenceStatus.waived)).1
      stored.change_packet_id
    ≡ some waived_packet
unfolding update_evidence_execution lit get_change_packet lookup is_blank
    merger.ControlPlane.valid_evidence_status save_change_packet merger.Prelude.put
    merger.ControlPlane.find_evidence_requirement can_transition_evidence
    merger.Domain.EvidenceStatus-discrete merger.ControlPlane.current_evidence_status
    merger.Store.list_evidence_executions merger.Prelude.sort_by merger.Lanes.assign
    merger.ControlPlane.reconciled merger.Store.record_evidence_update
waived_packet_found = refl

update-green_complete_example :
    IsComplete
      (update_evidence_execution service env repository (report EvidenceStatus.waived)).1
      waived_packet
update-green_complete_example =
    update-green_complete service env repository (report EvidenceStatus.waived) stored
      (record { green_max = pos 24; yellow_max = pos 59; red_max = pos 84 }) waived_packet
      repository-IsValid refl waiver_accepted waived_packet_found refl
