-- ===== src/ControlPlane/Transitions.antt =====
-- service.go: how an update changes the statuses of evidence.
use merger.Prelude.{
  ℕ, ◌≡◌, refl, ap, ◌∙◌, true, List, [], ◌∷◌, Option, none, some, ◌==◌, Bool-cases, inl, inr, ◌&&◌,
  arith, if◌then◌else◌, Dict, lookup, put, lookup-put, eq→≡, eq_refl,
}
use merger.Text.{Str, str_key}
use merger.Domain.{
  ChangePacket, EvidenceExecution, EvidenceAuditEntry, EvidenceStatus, EvidenceRequirement,
  status_key,
}
use merger.Store.{
  Repository, evidence_of_packet, or_nil, upsert_evidence_execution, record_evidence_update,
  ensure_evidence, save_change_packet, stamped, refreshed,
}
use merger.ControlPlane.Evidence.{current_evidence_status, can_transition_evidence, is_done}
use merger.ControlPlane.Reconcile.{Service, reconcile_decision}
use merger.ControlPlane.Update.{
  Env, attributed, update_evidence_execution, record_and_reconcile, completed,
}
use merger.ControlPlane.Cases.{update-cases}
use merger.ControlPlane.Listing.{status_or, Shows-listing, status_in-Shows}
use merger.ControlPlane.Valid.{
  IsValid, evidence-Named, evidence-Faithful, save_change_packet-IsValid,
  record_evidence_update-IsValid,
}

-- The status of a piece of evidence; what was never reported is pending.
abbrev pub stored_status : Repository → Str → Str → EvidenceStatus
stored_status r id name = status_or EvidenceStatus.pending (lookup name (evidence_of_packet r id))

pub current-stored :
    (s : Service) (r : Repository) (id name : Str)
    → IsValid r
    → current_evidence_status s.order r id name ≡ stored_status r id name
unfolding current_evidence_status
current-stored s r id name v =
    let n = evidence-Named r id v in
    let f = evidence-Faithful r id v in
    status_in-Shows (evidence_of_packet r id) name _ (Shows-listing s.order r id name n f)

refreshed_status :
    (now : ℕ) (id : Str) (q : EvidenceRequirement) (o : Option EvidenceExecution)
    → (refreshed now id q o).status ≡ status_or EvidenceStatus.pending o
refreshed_status now id q none = refl
refreshed_status now id q (some e) = refl

ensure_evidence-status :
    (now : ℕ) (id name : Str) (qs : List EvidenceRequirement) (m : Dict Str EvidenceExecution)
    → status_or EvidenceStatus.pending (lookup name (ensure_evidence now id qs m))
      ≡ status_or EvidenceStatus.pending (lookup name m)
unfolding ensure_evidence
ensure_evidence-status now id name [] m = refl
ensure_evidence-status now id name (q ∷ qs) m =
    let m' = put q.name (refreshed now id q (lookup q.name m)) m in
    ensure_evidence-status now id name qs m' ∙ put_refreshed now id name q m
  where
    put_refreshed :
        (now : ℕ) (id name : Str) (q : EvidenceRequirement) (m : Dict Str EvidenceExecution)
        → status_or EvidenceStatus.pending
            (lookup name (put q.name (refreshed now id q (lookup q.name m)) m))
          ≡ status_or EvidenceStatus.pending (lookup name m)
    put_refreshed now id name q m = ground (
      arith,
      lookup-put q.name name (refreshed now id q (lookup q.name m)) m,
      refreshed_status now id q (lookup q.name m),
      ap (λ x. status_or EvidenceStatus.pending (lookup x m)),
      eq→≡ q.name name,
    )

evidence-put :
    (id k : Str) (d : Dict Str (Dict Str EvidenceExecution)) (m : Dict Str EvidenceExecution)
    → or_nil (lookup id (put k m d)) ≡ (if k == id then m else or_nil (lookup id d))
evidence-put id k d m = ground (arith, lookup-put k id m d)

-- Saving a packet keeps every status.
pub save_change_packet-status :
    (now : ℕ) (r : Repository) (p : ChangePacket) (id name : Str)
    → stored_status (save_change_packet now r p) id name ≡ stored_status r id name
unfolding save_change_packet
save_change_packet-status now r p id name = elim (Bool-cases (p.id == id)) [
  | inl same ↦
      rw (evidence-put id p.id r.evidence_by_cpid _, same)
        (ensure_evidence-status now p.id name p.evidence _
          ∙ ap (λ x. stored_status r x name) (eq→≡ p.id id same))
  | inr other ↦ rw (evidence-put id p.id r.evidence_by_cpid _, other) refl
]

status-put :
    (k name : Str) (e : EvidenceExecution) (m : Dict Str EvidenceExecution)
    → status_or EvidenceStatus.pending (lookup name (put k e m))
      ≡ (if k == name then e.status else status_or EvidenceStatus.pending (lookup name m))
status-put k name e m = ground (arith, lookup-put k name e m)

stamped_status : (now : ℕ) (e : EvidenceExecution) → (stamped now e).status ≡ e.status
stamped_status now e = ground arith

record_evidence_update-status :
    (now : ℕ) (r : Repository) (e : EvidenceExecution) (a : EvidenceAuditEntry) (id name : Str)
    → stored_status (record_evidence_update now r e a) id name
      ≡ (if e.change_packet_id == id && e.name == name then e.status else stored_status r id name)
unfolding record_evidence_update upsert_evidence_execution
record_evidence_update-status now r e a id name =
    let m = evidence_of_packet r e.change_packet_id in
    let put_status = status-put e.name name (stamped now e) m in
    elim (Bool-cases (e.change_packet_id == id)) [
      | inl same ↦
          rw (evidence-put id e.change_packet_id r.evidence_by_cpid _, same)
            (put_status
              ∙ ground (
                arith,
                stamped_status now e,
                ap (λ x. stored_status r x name) (eq→≡ e.change_packet_id id same),
              ))
      | inr other ↦ rw (evidence-put id e.change_packet_id r.evidence_by_cpid _, other) refl
    ]

-- What an update does once it is legal.
pub record_and_reconcile-status :
    (s : Service) (env : Env) (r : Repository) (p : ChangePacket) (q : EvidenceRequirement)
    (e : EvidenceExecution) (id name : Str)
    → stored_status (record_and_reconcile s env r p q e).1 id name
      ≡ (if e.change_packet_id == id && e.name == name then e.status else stored_status r id name)
unfolding record_and_reconcile reconcile_decision
record_and_reconcile-status s env r p q e id name =
    save_change_packet-status env.later _ _ id name
    ∙ record_evidence_update-status env.now r (completed env q e) _ id name

can_transition_refl : (a : EvidenceStatus) → can_transition_evidence a a ≡ true
unfolding can_transition_evidence
can_transition_refl a = ground (arith, eq_refl a)

legal_at :
    (s : Service) (r : Repository) (e : EvidenceExecution) (id name : Str)
    → IsValid r
    → can_transition_evidence (current_evidence_status s.order r e.change_packet_id e.name) e.status
      ≡ true
    → can_transition_evidence
        (stored_status r id name)
        (if e.change_packet_id == id && e.name == name then e.status else stored_status r id name)
      ≡ true
legal_at s r e id name v h =
    let current = current-stored s r e.change_packet_id e.name v in
    let same : e.change_packet_id ≡ id
        → e.name ≡ name
        → stored_status r e.change_packet_id e.name ≡ stored_status r id name =
      λ a b. ap (λ x. stored_status r x e.name) a ∙ ap (stored_status r id) b in
    ground (
      arith,
      current,
      can_transition_refl (stored_status r id name),
      eq→≡ e.change_packet_id id,
      eq→≡ e.name name,
      same,
    )

-- Every update, accepted or refused and with any outcome of the check publisher, takes the stored
-- status of each piece of evidence of each packet to itself or along the transition table, in a
-- well-formed repository.
pub update-legal :
    (s : Service) (env : Env) (r : Repository) (given : EvidenceExecution) (id name : Str)
    → IsValid r
    → can_transition_evidence
        (stored_status r id name)
        (stored_status (update_evidence_execution s env r given).1 id name)
      ≡ true
update-legal s env r given id name v = elim (update-cases s env r given) [
  | inl (x, h) ↦ rw (h) (can_transition_refl (stored_status r id name))
  | inr (p, q, a, h) ↦
      rw (h, record_and_reconcile-status s env r p q (attributed env.principal given) id name)
        (legal_at s r (attributed env.principal given) id name v a.legal)
]

done_stays : (a b : EvidenceStatus) → is_done a ≡ true → can_transition_evidence a b ≡ true → b ≡ a
unfolding can_transition_evidence
done_stays a b h k = ground (arith, eq→≡ a b)

pub record_and_reconcile-IsValid :
    (s : Service) (env : Env) (r : Repository) (p : ChangePacket) (q : EvidenceRequirement)
    (e : EvidenceExecution)
    → IsValid r
    → IsValid (record_and_reconcile s env r p q e).1
unfolding record_and_reconcile reconcile_decision
record_and_reconcile-IsValid s env r p q e v =
    save_change_packet-IsValid env.later _ _
      (record_evidence_update-IsValid env.now r (completed env q e) _ v)

-- Every update keeps the repository well-formed.
pub update-IsValid :
    (s : Service) (env : Env) (r : Repository) (given : EvidenceExecution)
    → IsValid r
    → IsValid (update_evidence_execution s env r given).1
update-IsValid s env r given v = elim (update-cases s env r given) [
  | inl (x, h) ↦ rw h v
  | inr (p, q, a, h) ↦
      rw h (record_and_reconcile-IsValid s env r p q (attributed env.principal given) v)
]

-- A sequence of requests, each with its environment.
unfoldable pub updates : Service → List (Env × EvidenceExecution) → Repository → Repository
unfolding update_evidence_execution
updates s [] r = r
updates s ((env, given) ∷ rest) r = updates s rest (update_evidence_execution s env r given).1

-- From a well-formed repository, no sequence of updates takes evidence that is satisfied or waived
-- to another status.
pub updates-keep_done :
    (s : Service) (requests : List (Env × EvidenceExecution)) (r : Repository) (id name : Str)
    → IsValid r
    → is_done (stored_status r id name) ≡ true
    → stored_status (updates s requests r) id name ≡ stored_status r id name
unfolding updates
updates-keep_done s [] r id name v h = refl
updates-keep_done s ((env, given) ∷ rest) r id name v h =
    let r' = (update_evidence_execution s env r given).1 in
    let same = done_stays _ _ h (update-legal s env r given id name v) in
    updates-keep_done s rest r' id name (update-IsValid s env r given v) (rw (same, h)) ∙ same
