-- ===== src/ControlPlane/Cases.antt =====
-- service.go: the two ways in which `UpdateEvidenceExecution` ends.
use merger.Prelude.{◌≡◌, ◌⊎◌, inl, inr, true, none, some, err, Option-cases, Bool-cases, arith}
use merger.Domain.{ChangePacket, EvidenceExecution, EvidenceRequirement}
use merger.Store.{Repository, get_change_packet}
use merger.ControlPlane.Errors.{
  ServiceError, change_packet_not_found, evidence_not_found, bad_transition,
}
use merger.ControlPlane.Evidence.{
  current_evidence_status, can_transition_evidence, find_evidence_requirement,
}
use merger.ControlPlane.Reconcile.{Service}
use merger.ControlPlane.Update.{
  Env, attributed, check_request, update_evidence_execution, update_found, apply_update,
  record_and_reconcile,
}

-- All checks of the update pass.
pub record Applied (s : Service) (env : Env) (r : Repository) (given : EvidenceExecution)
    (p : ChangePacket) (q : EvidenceRequirement) : Type 0 where
  pub checked : check_request given (attributed env.principal given) ≡ none
  pub found : get_change_packet r (attributed env.principal given).change_packet_id ≡ some p
  pub required_by :
      find_evidence_requirement p.evidence (attributed env.principal given).name ≡ some q
  pub legal :
      can_transition_evidence
        (current_evidence_status s.order r
          (attributed env.principal given).change_packet_id
          (attributed env.principal given).name)
        (attributed env.principal given).status
      ≡ true

pub update-cases :
    (s : Service) (env : Env) (r : Repository) (given : EvidenceExecution)
    → ((x : ServiceError) × (update_evidence_execution s env r given ≡ (err x, r)))
      ⊎ ((p : ChangePacket) × (q : EvidenceRequirement) × (Applied s env r given p q)
          × (update_evidence_execution s env r given
              ≡ record_and_reconcile s env r p q (attributed env.principal given)))
unfolding update_evidence_execution update_found apply_update
update-cases s env r given =
    let e = attributed env.principal given in
    elim (Option-cases (check_request given e)) [
      | inr (x, h) ↦ inl (x, ground arith)
      | inl h ↦ elim (Option-cases (get_change_packet r e.change_packet_id)) [
        | inl f ↦ inl (change_packet_not_found, ground arith)
        | inr (p, f) ↦ elim (Option-cases (find_evidence_requirement p.evidence e.name)) [
          | inl g ↦ inl (evidence_not_found e.change_packet_id e.name, ground arith)
          | inr (q, g) ↦
              elim (Bool-cases (
                can_transition_evidence
                  (current_evidence_status s.order r e.change_packet_id e.name) e.status)) [
                    | inl l ↦ inr (
                      p,
                      q,
                      record { checked = h; found = f; required_by = g; legal = l },
                      ground arith,
                    )
                    | inr l ↦ inl (
                      bad_transition e.name
                          (current_evidence_status s.order r e.change_packet_id e.name) e.status,
                      ground arith,
                    )
                  ]
        ]
      ]
    ]
