-- ===== src/ControlPlane/Audit.antt =====
-- service.go: what an update records, and when it leaves the repository alone.
use merger.Prelude.{
  ◌≡◌, ◌≢◌, refl, sym, ap, ◌∙◌, false, Option, none, some, ◌⊎◌, inl, inr, arith, ok, err,
}
use merger.Text.{Str, str_key, is_blank}
use merger.Access.{Principal}
use merger.Domain.{
  ChangePacket, EvidenceExecution, EvidenceAuditEntry, EvidenceStatus, EvidenceRequirement,
}
use merger.Store.{Repository}
use merger.ControlPlane.Errors.{ServiceError, publish_failed}
use merger.ControlPlane.Reconcile.{Service, publish, failure, reconcile_decision}
use merger.ControlPlane.Update.{
  Env, answer, attributed, check_request, update_evidence_execution, record_and_reconcile,
  completed, audit_of,
}
use merger.ControlPlane.Cases.{Applied, update-cases}
use merger.ControlPlane.Transitions.{stored_status}

record_and_reconcile-result :
    (s : Service) (env : Env) (r : Repository) (p : ChangePacket) (q : EvidenceRequirement)
    (e : EvidenceExecution)
    → ((record_and_reconcile s env r p q e).0 ≡ ok (completed env q e))
      ⊎ ((why : Str) × ((record_and_reconcile s env r p q e).0 ≡ err (publish_failed why)))
unfolding record_and_reconcile reconcile_decision
record_and_reconcile-result s env r p q e = sent (completed env q e) (publish s.check_publisher _ _)
  where
    sent :
        (stored : EvidenceExecution) (o : Option Str)
        → (answer stored (failure o) ≡ ok stored)
          ⊎ ((why : Str) × (answer stored (failure o) ≡ err (publish_failed why)))
    sent stored none = inl refl
    sent stored (some why) = inr (why, refl)

-- What holds of an update that succeeds.
pub record Done (s : Service) (env : Env) (r : Repository) (given e : EvidenceExecution)
    : Type 0 where
  pub p : ChangePacket
  pub q : EvidenceRequirement
  pub applied : Applied s env r given p q
  pub stored : e ≡ completed env q (attributed env.principal given)
  pub result :
      update_evidence_execution s env r given
      ≡ record_and_reconcile s env r p q (attributed env.principal given)

pub update-Done :
    (s : Service) (env : Env) (r : Repository) (given e : EvidenceExecution)
    → (update_evidence_execution s env r given).0 ≡ ok e
    → Done s env r given e
update-Done s env r given e h = elim (update-cases s env r given) [
  | inl (y, f) ↦ absurd (let g : err y ≡ ok e = sym (ap (λ x. x.0) f) ∙ h in cc)
  | inr (p, q, a, f) ↦
      elim (record_and_reconcile-result s env r p q (attributed env.principal given)) [
        | inl g ↦ record {
          p = p;
          q = q;
          applied = a;
          result = f;
          stored =
              (let k : ok e ≡ ok (completed env q (attributed env.principal given)) =
                  sym h ∙ ap (λ x. x.0) f ∙ g in
                cc);
        }
        | inr (why, g) ↦
            absurd (let k : ok e ≡ err (publish_failed why) = sym h ∙ ap (λ x. x.0) f ∙ g in cc)
      ]
]

-- An update that is refused, for any reason but a failure of the check publisher, leaves the
-- repository as it was.
pub update-refused :
    (s : Service) (env : Env) (r : Repository) (given : EvidenceExecution) (x : ServiceError)
    → ((why : Str) → x ≢ publish_failed why)
    → (update_evidence_execution s env r given).0 ≡ err x
    → (update_evidence_execution s env r given).1 ≡ r
update-refused s env r given x n h = elim (update-cases s env r given) [
  | inl (y, f) ↦ ap (λ x. x.1) f
  | inr (p, q, a, f) ↦
      elim (record_and_reconcile-result s env r p q (attributed env.principal given)) [
        | inl g ↦ absurd (
            let k : ok (completed env q (attributed env.principal given)) ≡ err x =
              sym g ∙ sym (ap (λ x. x.0) f) ∙ h in
            cc)
        | inr (why, g) ↦
            absurd
              (let k : err x ≡ err (publish_failed why) = sym h ∙ ap (λ x. x.0) f ∙ g in n why cc)
      ]
]

-- The entry that an update of `given` from the repository `r` is recorded by.
abbrev pub entry : Env → Repository → EvidenceExecution → EvidenceAuditEntry
entry env r e = audit_of env (stored_status r e.change_packet_id e.name) e

waived_check :
    (given e : EvidenceExecution)
    → check_request given e ≡ none
    → e.status ≡ EvidenceStatus.waived
    → is_blank e.updated_by ≡ false
unfolding check_request
waived_check given e h w = ground arith

-- Who is named as the author of an update.
abbrev pub actor_of : Option Principal → Str → Str
actor_of none name = name
actor_of (some p) name = p.subject

attributed_actor :
    (o : Option Principal) (e : EvidenceExecution)
    → (attributed o e).updated_by ≡ actor_of o e.updated_by
attributed_actor none e = refl
attributed_actor (some p) e = refl

-- Evidence is waived only under a name: an update that succeeds with the status `waived` stores an
-- actor that is not blank, the subject of the principal where there is one and else the name that
-- the request gives.
pub update-waived_actor :
    (s : Service) (env : Env) (r : Repository) (given e : EvidenceExecution)
    → (update_evidence_execution s env r given).0 ≡ ok e
    → e.status ≡ EvidenceStatus.waived
    → (is_blank e.updated_by ≡ false) × (e.updated_by ≡ actor_of env.principal given.updated_by)
update-waived_actor s env r given e h w =
    let d = update-Done s env r given e h in
    (
      rw d.stored (
          waived_check given (attributed env.principal given) d.applied.checked
            (ap (λ x. x.status) (sym d.stored) ∙ w)),
      ap (λ x. x.updated_by) d.stored ∙ attributed_actor env.principal given,
    )
