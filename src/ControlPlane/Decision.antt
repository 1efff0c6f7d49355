-- ===== src/ControlPlane/Decision.antt =====
-- service.go: the decision and the lane that an update leaves a packet with.
use merger.Prelude.{
  ℕ, ◌≡◌, ◌↔◌, refl, sym, ap, ◌∙◌, true, false, List, [], ◌∷◌, Option, none, some, arith,
  lookup-put_self, All, ok, MapOrder,
}
use mathlib.Core.Path.{subst}
use merger.Text.{Str, str_key}
use merger.Domain.{ChangePacket, EvidenceExecution, EvidenceRequirement, DecisionStatus, MergeLane}
use merger.Lanes
use merger.Lanes.Assign.{assign-green_iff}
use merger.Store.{Repository, get_change_packet, save_change_packet}
use merger.ControlPlane.Evidence.{is_done}
use merger.ControlPlane.Reconcile.{
  Service, is_blocked, assigned, reconciled, reconciled_packet, reconcile_decision,
}
use merger.ControlPlane.Update.{
  Env, attributed, completed, update_evidence_execution, record_and_reconcile,
}
use merger.ControlPlane.Valid.{IsValid, packet_id, record_evidence_update-IsValid}
use merger.ControlPlane.Transitions.{stored_status, save_change_packet-status}
use merger.ControlPlane.Audit.{update-Done}
use merger.ControlPlane.Complete.{IsComplete, reconciled-approved_iff}

-- Completeness reads the stored statuses only, which saving keeps.
IsComplete-saved :
    (now : ℕ) (r : Repository) (p p' : ChangePacket)
    → IsComplete r p
    → IsComplete (save_change_packet now r p') p
IsComplete-saved now r p p' c = record {
  evidence_done = kept p.evidence c.evidence_done;
  no_reviewers = c.no_reviewers;
}
  where
    kept :
        (qs : List EvidenceRequirement)
        → All (λ q. q.required ≡ true → is_done (stored_status r p.id q.name) ≡ true) qs
        → All
            (λ q.
              q.required ≡ true
              → is_done (stored_status (save_change_packet now r p') p.id q.name) ≡ true)
            qs
    kept [] h = tt
    kept (q ∷ qs) (h, t) =
        (λ k. rw (save_change_packet-status now r p' p.id q.name) (h k), kept qs t)

IsComplete-before :
    (now : ℕ) (r : Repository) (p p' : ChangePacket)
    → IsComplete (save_change_packet now r p') p
    → IsComplete r p
IsComplete-before now r p p' c = record {
  evidence_done = kept p.evidence c.evidence_done;
  no_reviewers = c.no_reviewers;
}
  where
    kept :
        (qs : List EvidenceRequirement)
        → All
            (λ q.
              q.required ≡ true
              → is_done (stored_status (save_change_packet now r p') p.id q.name) ≡ true)
            qs
        → All (λ q. q.required ≡ true → is_done (stored_status r p.id q.name) ≡ true) qs
    kept [] h = tt
    kept (q ∷ qs) (h, t) =
        (λ k. rw (sym (save_change_packet-status now r p' p.id q.name)) (h k), kept qs t)

-- What is known of the packet under `id` after an update.
pub record Settled (s : Service) (r : Repository) (id : Str) : Type 0 where
  pub packet : ChangePacket
  pub found : get_change_packet r id ≡ some packet
  pub approved_iff :
      (packet.decision.status ≡ DecisionStatus.approved)
      ↔ ((is_blocked packet.decision.status ≡ false) × IsComplete r packet)
  pub green :
      (c : Lanes.Config)
      → s.lane_assigner ≡ some c
      → packet.merge_lane ≡ MergeLane.green
      → IsComplete r packet

reconciled-blocked :
    (order : MapOrder) (now : ℕ) (r : Repository) (p : ChangePacket)
    → is_blocked (reconciled order now r p).status ≡ is_blocked p.decision.status
unfolding reconciled
reconciled-blocked order now r p = ground arith

reconciled-closed :
    (order : MapOrder) (now : ℕ) (r : Repository) (p : ChangePacket)
    → Lanes.is_blocked (reconciled order now r p).status ≡ false
    → Lanes.is_open (reconciled order now r p).status ≡ false
    → (reconciled order now r p).status ≡ DecisionStatus.approved
unfolding reconciled
reconciled-closed order now r p b o = ground arith

assigned_green :
    (l : Option Lanes.Config) (c : Lanes.Config) (p : ChangePacket)
    → l ≡ some c
    → assigned l p ≡ MergeLane.green
    → (Lanes.is_blocked p.decision.status ≡ false) × (Lanes.is_open p.decision.status ≡ false)
assigned_green none c p e h = cc
assigned_green (some d) c p e h = let g = (assign-green_iff d p).0 h in (g.not_blocked, g.not_open)

reconciled-IsComplete :
    (order : MapOrder) (now : ℕ) (r : Repository) (p : ChangePacket)
    → IsValid r
    → (Lanes.is_blocked (reconciled order now r p).status ≡ false)
      × (Lanes.is_open (reconciled order now r p).status ≡ false)
    → IsComplete r p
reconciled-IsComplete order now r p v (b, o) =
    ((reconciled-approved_iff order now r p v).0 (reconciled-closed order now r p b o)).1

reconcile-Settled :
    (s : Service) (now : ℕ) (r : Repository) (p : ChangePacket) (id : Str)
    → IsValid r
    → p.id ≡ id
    → Settled s (save_change_packet now r (reconciled_packet s now r p)) id
unfolding reconciled_packet
reconcile-Settled s now r p id v e =
    let p' = reconciled_packet s now r p in
    let (to, from) = reconciled-approved_iff s.order now r p v in
    let blocked = reconciled-blocked s.order now r p in
    let after : IsComplete r p → IsComplete (save_change_packet now r p') p' = λ c.
      IsComplete-saved now r p' p'
        (record { evidence_done = c.evidence_done; no_reviewers = c.no_reviewers }) in
    let before : IsComplete (save_change_packet now r p') p' → IsComplete r p = λ c.
      (let b = IsComplete-before now r p' p' c in
        record { evidence_done = b.evidence_done; no_reviewers = b.no_reviewers }) in
    record {
      packet = p';
      found =
          unfold get_change_packet save_change_packet in
          rw (sym e, lookup-put_self p.id p' r.change_packets) refl;
      approved_iff =
          (λ h. (blocked ∙ (to h).0, after (to h).1), λ (b, c). from (sym blocked ∙ b, before c));
      green = λ c l g.
          after (reconciled-IsComplete s.order now r p v (assigned_green s.lane_assigner c _ l g));
    }

update-Settled :
    (s : Service) (env : Env) (r : Repository) (given e : EvidenceExecution)
    → IsValid r
    → (update_evidence_execution s env r given).0 ≡ ok e
    → Settled s (update_evidence_execution s env r given).1 e.change_packet_id
unfolding record_and_reconcile reconcile_decision
update-Settled s env r given e v h =
    let d = update-Done s env r given e h in
    let e' = attributed env.principal given in
    rw (d.result, ap (λ x. x.change_packet_id) d.stored)
      (reconcile-Settled s env.later _ d.p e'.change_packet_id
        (record_evidence_update-IsValid env.now r (completed env d.q e') _ v)
        (packet_id r e'.change_packet_id d.p v d.applied.found))

-- What the decision of the packet under `id` says after an update.
pub record IsDecided (r : Repository) (id : Str) : Type 0 where
  pub packet : ChangePacket
  pub found : get_change_packet r id ≡ some packet
  pub approved_iff :
      (packet.decision.status ≡ DecisionStatus.approved)
      ↔ ((is_blocked packet.decision.status ≡ false) × IsComplete r packet)

-- In a well-formed repository and with a lane assigner, a packet that a successful update leaves
-- GREEN has each required piece of evidence satisfied or waived, and no mandatory reviewer.
pub update-green_complete :
    (s : Service) (env : Env) (r : Repository) (given e : EvidenceExecution) (c : Lanes.Config)
    (p : ChangePacket)
    → IsValid r
    → s.lane_assigner ≡ some c
    → (update_evidence_execution s env r given).0 ≡ ok e
    → get_change_packet (update_evidence_execution s env r given).1 e.change_packet_id ≡ some p
    → p.merge_lane ≡ MergeLane.green
    → IsComplete (update_evidence_execution s env r given).1 p
update-green_complete s env r given e c p v l h f g =
    let d = update-Settled s env r given e v h in
    let both : some d.packet ≡ some p = sym d.found ∙ f in
    let same : d.packet ≡ p = cc in
    subst (IsComplete (update_evidence_execution s env r given).1) same
      (d.green c l (ap (λ x. x.merge_lane) same ∙ g))
