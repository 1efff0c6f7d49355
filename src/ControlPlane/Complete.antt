-- ===== src/ControlPlane/Complete.antt =====
-- service.go: when `reconcileDecision` approves a packet.
use merger.Prelude.{
  ℕ, ◌≡◌, ◌↔◌, refl, ap, ◌∙◌, Bool, true, false, not, List, [], ◌∷◌, Option, none, some, ◌==◌,
  Bool-cases, ◌⊎◌, inl, inr, arith, Dict, lookup, put, lookup-put, All, any, MapOrder, ◌&&◌, ◌||◌,
}
use merger.Text.{Str, str_key}
use merger.Domain.{
  ChangePacket, EvidenceExecution, EvidenceStatus, EvidenceRequirement, DecisionStatus,
}
use merger.Store.{Repository, evidence_of_packet, list_evidence_executions}
use merger.ControlPlane.Evidence.{
  statuses_by_name, all_done, is_done, or_unset, required_evidence_complete,
  has_mandatory_reviewers,
}
use merger.ControlPlane.Reconcile.{is_blocked, reconciled}
use merger.ControlPlane.Listing.{status_or, Shows, Shows-listing}
use merger.ControlPlane.Valid.{IsValid, evidence-Named, evidence-Faithful}
use merger.ControlPlane.Transitions.{stored_status}

abbrev status_of : Option EvidenceExecution → Option EvidenceStatus
status_of none = none
status_of (some e) = some e.status

statuses-agree :
    (m : Dict Str EvidenceExecution) (name : Str) (es : List EvidenceExecution)
    (acc : Dict Str EvidenceStatus)
    → All (λ e. (e.name == name) ≡ true → lookup name m ≡ some e) es
    → (lookup name acc ≡ status_of (lookup name m)) ⊎ (any (λ e. e.name == name) es ≡ true)
    → lookup name (statuses_by_name es acc) ≡ status_of (lookup name m)
unfolding statuses_by_name
statuses-agree m name [] acc h (inl f) = f
statuses-agree m name [] acc h (inr f) = cc
statuses-agree m name (e ∷ es) acc (p, h) f =
    statuses-agree m name es (put e.name e.status acc) h (elim (Bool-cases (e.name == name)) [
      | inl same ↦ inl (lookup-put e.name name e.status acc ∙ rw (same, p same) refl)
      | inr other ↦ (elim f [
        | inl g ↦ inl (lookup-put e.name name e.status acc ∙ rw (other, g) refl)
        | inr g ↦ inr (rw other at g)
      ])
    ])

statuses-Shows :
    (m : Dict Str EvidenceExecution) (name : Str) (es : List EvidenceExecution)
    → Shows m name es
    → lookup name (statuses_by_name es []) ≡ status_of (lookup name m)
statuses-Shows m name es s =
    statuses-agree m name es [] s.agrees (elim (Bool-cases (any (λ e. e.name == name) es)) [
      | inl some_named ↦ inr some_named
      | inr unnamed ↦ inl (rw (s.absent unnamed) (unfold lookup in refl))
    ])

-- Every required piece of evidence of the packet is satisfied or waived, and no reviewer is
-- mandatory.
pub record IsComplete (r : Repository) (p : ChangePacket) : Type 0 where
  pub evidence_done :
      All (λ q. q.required ≡ true → is_done (stored_status r p.id q.name) ≡ true) p.evidence
  pub no_reviewers : any (λ v. v.mandatory) p.reviewers ≡ false

is_done-status :
    (o : Option EvidenceExecution)
    → is_done (or_unset (status_of o)) ≡ is_done (status_or EvidenceStatus.pending o)
is_done-status none = refl
is_done-status (some e) = refl

required_and :
    (q a b rest : Bool)
    → a ≡ b
    → ((((not q || a) && rest) ≡ true) → (q ≡ true → b ≡ true) × (rest ≡ true))
      × ((q ≡ true → b ≡ true) → rest ≡ true → ((not q || a) && rest) ≡ true)
required_and q a b rest e = (λ h. (λ k. ground arith, ground arith), λ h k. ground arith)

all_done_iff :
    (order : MapOrder) (r : Repository) (id : Str) (qs : List EvidenceRequirement)
    → IsValid r
    → (all_done (statuses_by_name (list_evidence_executions order r id) []) qs ≡ true)
      ↔ All (λ q. q.required ≡ true → is_done (stored_status r id q.name) ≡ true) qs
unfolding all_done
all_done_iff order r id [] v = (λ h. tt, λ h. refl)
all_done_iff order r id (q ∷ qs) v =
    let (to, from) = all_done_iff order r id qs v in
    let listed =
      statuses-Shows (evidence_of_packet r id) q.name _
        (Shows-listing order r id q.name (evidence-Named r id v) (evidence-Faithful r id v)) in
    let same = is_done-status (lookup q.name (evidence_of_packet r id)) in
    let done = ap (λ o. is_done (or_unset o)) listed ∙ same in
    let (here, there) = required_and q.required _ _ _ done in
    (λ h. ((here h).0, to (here h).1), λ h. there h.0 (from h.1))

pub reconciled-approved_iff :
    (order : MapOrder) (now : ℕ) (r : Repository) (p : ChangePacket)
    → IsValid r
    → ((reconciled order now r p).status ≡ DecisionStatus.approved)
      ↔ ((is_blocked p.decision.status ≡ false) × IsComplete r p)
unfolding reconciled required_evidence_complete has_mandatory_reviewers
reconciled-approved_iff order now r p v =
    let (to, from) = all_done_iff order r p.id p.evidence v in
    (
      λ h.
          (ground arith, record { evidence_done = to (ground arith); no_reviewers = ground arith }),
      λ (b, c). let d = from c.evidence_done in let n = c.no_reviewers in ground arith,
    )
