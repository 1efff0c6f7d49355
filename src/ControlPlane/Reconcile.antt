-- ===== src/ControlPlane/Reconcile.antt =====
-- service.go: `reconcileDecision`.
use merger.Prelude.{
  ℕ, Bool, true, false, not, ◌&&◌, List, Option, none, some, if◌then◌else◌, MapOrder, nat_key,
}
use merger.Text.{Str, str_key}
use merger.Domain.{
  ChangePacket, EvidenceExecution, status_key, DecisionStatus, PolicyDecision, MergeLane,
}
use merger.Lanes
use merger.Store.{Repository, list_evidence_executions, save_change_packet}
use merger.ControlPlane.Errors.{ServiceError, publish_failed}
use merger.ControlPlane.Evidence.{required_evidence_complete, has_mandatory_reviewers}

abbrev pub is_blocked : DecisionStatus → Bool
is_blocked DecisionStatus.blocked = true
is_blocked _ = false

-- The decision that `reconcileDecision` stores.
unfoldable pub reconciled : MapOrder → ℕ → Repository → ChangePacket → PolicyDecision
unfolding required_evidence_complete has_mandatory_reviewers
reconciled order now r p = if is_blocked p.decision.status then p.decision else record p.decision {
  status =
      if required_evidence_complete p.evidence (list_evidence_executions order r p.id)
        && not (has_mandatory_reviewers p.reviewers)
      then DecisionStatus.approved
      else DecisionStatus.pending;
  decided_at = now;
}

-- A service: the order in which maps are visited, the lane assigner if there is one, and the check
-- publisher if there is one, which answers with an error or none.
pub record Service : Type 1 where
  pub order : MapOrder
  pub lane_assigner : Option Lanes.Config
  pub check_publisher : Option (ChangePacket → List EvidenceExecution → Option Str)

abbrev pub assigned : Option Lanes.Config → ChangePacket → MergeLane
assigned none p = p.merge_lane
assigned (some c) p = Lanes.assign c p

-- The packet that `reconcileDecision` saves.
unfoldable pub reconciled_packet : Service → ℕ → Repository → ChangePacket → ChangePacket
reconciled_packet s now r p =
    let decided = record p { decision = reconciled s.order now r p; updated_at = now } in
    record decided { merge_lane = assigned s.lane_assigner decided }

abbrev pub publish :
    Option (ChangePacket → List EvidenceExecution → Option Str)
    → ChangePacket
    → List EvidenceExecution
    → Option Str
publish none p es = none
publish (some send) p es = send p es

abbrev pub failure : Option Str → Option ServiceError
failure none = none
failure (some why) = some (publish_failed why)

-- `reconcileDecision`: the packet is saved before the check is published, and stays saved if that
-- fails.
unfoldable pub reconcile_decision :
    Service → ℕ → Repository → ChangePacket → Option ServiceError × Repository
unfolding reconciled_packet
reconcile_decision s now r p =
    let p' = reconciled_packet s now r p in
    let executions = list_evidence_executions s.order r p.id in
    (failure (publish s.check_publisher p' executions), save_change_packet now r p')
