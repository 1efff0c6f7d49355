-- ===== src/ControlPlane/Sets.antt =====
-- service.go: which status an update changes.
use merger.Prelude.{
  ◌≡◌, refl, sym, ap, ◌∙◌, Bool, true, false, Option, none, some, ◌==◌, ◌⊎◌, inl, inr, ◌&&◌,
  if◌then◌else◌, eq→≡,
}
use merger.Text.{Str, str_key}
use merger.Access.{Principal}
use merger.Domain.{EvidenceExecution, EvidenceStatus}
use merger.Store.{Repository}
use merger.ControlPlane.Reconcile.{Service}
use merger.ControlPlane.Update.{Env, attributed, update_evidence_execution}
use merger.ControlPlane.Cases.{update-cases}
use merger.ControlPlane.Transitions.{stored_status, record_and_reconcile-status}

attributed_same :
    (o : Option Principal) (e : EvidenceExecution)
    → ((attributed o e).change_packet_id ≡ e.change_packet_id)
      × ((attributed o e).name ≡ e.name)
      × ((attributed o e).status ≡ e.status)
attributed_same none e = (refl, refl, refl)
attributed_same (some p) e = (refl, refl, refl)

set_status :
    (a b : Bool) (x y z : EvidenceStatus)
    → z ≡ (if a && b then x else y)
    → (z ≡ y) ⊎ ((a ≡ true) × (b ≡ true) × (z ≡ x))
set_status true true x y z h = inr (refl, refl, h)
set_status true false x y z h = inl h
set_status false b x y z h = inl h

-- An update leaves the status of a piece of evidence alone, or sets it to that of the request, which
-- is about that evidence.
pub update-sets :
    (s : Service) (env : Env) (r : Repository) (given : EvidenceExecution) (id name : Str)
    → (stored_status (update_evidence_execution s env r given).1 id name ≡ stored_status r id name)
      ⊎ ((given.change_packet_id ≡ id)
          × (given.name ≡ name)
          × (stored_status (update_evidence_execution s env r given).1 id name ≡ given.status))
update-sets s env r given id name = elim (update-cases s env r given) [
  | inl (x, h) ↦ inl (ap (λ y. stored_status y.1 id name) h)
  | inr (p, q, a, h) ↦
      let e = attributed env.principal given in
      let (ids, names, statuses) = attributed_same env.principal given in
      (elim (set_status (e.change_packet_id == id) (e.name == name) e.status
        (stored_status r id name) _
        (ap (λ y. stored_status y.1 id name) h
          ∙ record_and_reconcile-status s env r p q e id name)) [
            | inl same ↦ inl same
            | inr (f, g, set) ↦ inr (
              sym ids ∙ eq→≡ e.change_packet_id id f,
              sym names ∙ eq→≡ e.name name g,
              set ∙ statuses,
            )
          ])
]
