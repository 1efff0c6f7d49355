-- ===== src/ControlPlane/Update.antt =====
-- service.go: `UpdateEvidenceExecution`.
use merger.Prelude.{
  ℕ, Bool, true, false, not, ◌&&◌, Option, none, some, if◌then◌else◌, nat_key, Result, ok, err,
}
use merger.Text.{Str, str_key, is_blank}
use merger.Domain.{
  ChangePacket, EvidenceExecution, EvidenceAuditEntry, EvidenceRequirement, EvidenceStatus,
  status_key,
}
use merger.Access.{Principal}
use merger.Store.{Repository, get_change_packet, record_evidence_update}
use merger.ControlPlane.Errors.{
  ServiceError, Field, invalid, change_packet_not_found, evidence_not_found, bad_transition,
}
use merger.ControlPlane.Evidence.{
  valid_evidence_status, can_transition_evidence, find_evidence_requirement,
  current_evidence_status,
}
use merger.ControlPlane.Reconcile.{Service, reconcile_decision}

-- What a call reads of the world: the times of its two calls of `time.Now`, and the fresh id.
pub record Env : Type 0 where
  pub principal : Option Principal
  pub now : ℕ
  pub later : ℕ
  pub fresh_id : Str

abbrev pub attributed : Option Principal → EvidenceExecution → EvidenceExecution
attributed none e = e
attributed (some p) e = record e { updated_by = p.subject }

abbrev pub is_waived : EvidenceStatus → Bool
is_waived EvidenceStatus.waived = true
is_waived _ = false

-- The checks of `UpdateEvidenceExecution` on the request alone.
unfoldable pub check_request : EvidenceExecution → EvidenceExecution → Option ServiceError
check_request given e =
    if is_blank given.change_packet_id
    then some (invalid Field.change_packet_id)
    else if is_blank given.name
    then some (invalid Field.name)
    else if not (valid_evidence_status given.status)
    then some (invalid Field.status)
    else if is_waived e.status && is_blank e.updated_by
    then some (invalid Field.updated_by)
    else none

-- The execution that is stored.
abbrev pub completed : Env → EvidenceRequirement → EvidenceExecution → EvidenceExecution
completed env q e = record e { kind = q.kind; required = q.required; updated_at = env.now }

abbrev pub audit_of : Env → EvidenceStatus → EvidenceExecution → EvidenceAuditEntry
audit_of env from e = record {
  id = env.fresh_id;
  change_packet_id = e.change_packet_id;
  evidence_name = e.name;
  from_status = from;
  to_status = e.status;
  actor = e.updated_by;
  summary = e.summary;
  details_url = e.details_url;
  metadata = e.metadata;
  occurred_at = e.updated_at;
}

abbrev pub answer : EvidenceExecution → Option ServiceError → Result ServiceError EvidenceExecution
answer stored none = ok stored
answer stored (some x) = err x

-- The update proper, once it is known to be legal: the evidence with its audit entry, then the
-- decision of the packet.
unfoldable pub record_and_reconcile :
    Service
    → Env
    → Repository
    → ChangePacket
    → EvidenceRequirement
    → EvidenceExecution
    → Result ServiceError EvidenceExecution × Repository
unfolding reconcile_decision
record_and_reconcile s env r p q e =
    let current = current_evidence_status s.order r e.change_packet_id e.name in
    let stored = completed env q e in
    let r' = record_evidence_update env.now r stored (audit_of env current stored) in
    let (failure, r'') = reconcile_decision s env.later r' p in (answer stored failure, r'')

-- The update, once the packet and the requirement are found.
unfoldable pub apply_update :
    Service
    → Env
    → Repository
    → ChangePacket
    → EvidenceRequirement
    → EvidenceExecution
    → Result ServiceError EvidenceExecution × Repository
unfolding record_and_reconcile
apply_update s env r p q e =
    let current = current_evidence_status s.order r e.change_packet_id e.name in
    if can_transition_evidence current e.status
    then record_and_reconcile s env r p q e
    else (err (bad_transition e.name current e.status), r)

-- The part of `UpdateEvidenceExecution` after the checks of the request.
unfoldable pub update_found :
    Service
    → Env
    → Repository
    → EvidenceExecution
    → Option ChangePacket
    → Result ServiceError EvidenceExecution × Repository
unfolding apply_update
update_found s env r e none = (err change_packet_not_found, r)
update_found s env r e (some p) = elim (find_evidence_requirement p.evidence e.name) [
  | none ↦ (err (evidence_not_found e.change_packet_id e.name), r)
  | some q ↦ apply_update s env r p q e
]

unfoldable pub update_evidence_execution :
    Service
    → Env
    → Repository
    → EvidenceExecution
    → Result ServiceError EvidenceExecution × Repository
unfolding check_request update_found
update_evidence_execution s env r given =
    let e = attributed env.principal given in
    elim (check_request given e) [
      | some x ↦ (err x, r)
      | none ↦ update_found s env r e (get_change_packet r e.change_packet_id)
    ]
