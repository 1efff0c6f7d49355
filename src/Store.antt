-- ===== src/Store.antt =====
-- internal/store/memory.go: the repository in memory. Each method runs under the lock, so it is one
-- step from state to state.
use merger.Prelude.{
  ℕ, ℤ, Bool, ◌&&◌, List, [], ◌∷◌, ◌++◌, map, Option, none, some, ltb, ◌==◌, length, take,
  if◌then◌else◌, MapOrder, Dict, lookup, put, sort_by, nat_key,
}
use merger.Prelude.Int.{int_key}
use mathlib.Core.List.{reverse}
use merger.Text.{Str, str_key, lit, lt_str}
use merger.Domain.{
  ChangePacket, EvidenceExecution, EvidenceAuditEntry, EvidenceRequirement, EvidenceStatus,
  DeploymentOutcome,
}

pub record Repository : Type 0 where
  pub change_packets : Dict Str ChangePacket
  pub evidence_by_cpid : Dict Str (Dict Str EvidenceExecution)
  pub audit_by_cpid : Dict Str (List EvidenceAuditEntry)
  pub outcomes : List DeploymentOutcome

abbrev pub new_repository : Repository
new_repository = record {
  change_packets = [];
  evidence_by_cpid = [];
  audit_by_cpid = [];
  outcomes = [];
}

abbrev pub or_nil {ℓ} : {A : Type ℓ} → Option (List A) → List A
or_nil none = []
or_nil (some xs) = xs

-- The inner maps; a missing one reads as the empty map.
abbrev pub evidence_of_packet : Repository → Str → Dict Str EvidenceExecution
evidence_of_packet r id = or_nil (lookup id r.evidence_by_cpid)

abbrev pub audit_of_packet : Repository → Str → List EvidenceAuditEntry
audit_of_packet r id = or_nil (lookup id r.audit_by_cpid)

-- A limit of 0 or less is none.
abbrev pub limited {ℓ} : {A : Type ℓ} → ℕ → List A → List A
limited limit items = if ltb 0 limit && ltb limit (length items) then take limit items else items

unfoldable pub get_change_packet : Repository → Str → Option ChangePacket
get_change_packet r id = lookup id r.change_packets

abbrev later_packet : ChangePacket → ChangePacket → Bool
later_packet a b = ltb b.updated_at a.updated_at

unfoldable pub list_change_packets : MapOrder → Repository → ℕ → List ChangePacket
list_change_packets order r limit =
    let packets = map (λ (e : Str × ChangePacket). e.1) (order.iterate _ r.change_packets) in
    limited limit (sort_by later_packet packets)

abbrev pub same_head : Str → ℤ → Str → ChangePacket → Bool
same_head full_name number head p =
    p.repo.full_name == full_name && (p.pr.number == number && p.pr.head_sha == head)

abbrev pub newer : ChangePacket → Option ChangePacket → Option ChangePacket
newer p none = some p
newer p (some latest) = if ltb latest.updated_at p.updated_at then some p else some latest

-- The loop of `FindLatestChangePacket`; `none` while nothing is found.
unfoldable pub find_latest :
    Str → ℤ → Str → List (Str × ChangePacket) → Option ChangePacket → Option ChangePacket
find_latest full_name number head [] latest = latest
find_latest full_name number head ((id, p) ∷ rest) latest =
    find_latest full_name number head rest
      (if same_head full_name number head p then newer p latest else latest)

unfoldable pub find_latest_change_packet :
    MapOrder → Repository → Str → ℤ → Str → Option ChangePacket
unfolding find_latest
find_latest_change_packet order r full_name number head =
    find_latest full_name number head (order.iterate _ r.change_packets) none

abbrev pub by_name : EvidenceExecution → EvidenceExecution → Bool
by_name a b = lt_str a.name b.name

unfoldable pub list_evidence_executions : MapOrder → Repository → Str → List EvidenceExecution
list_evidence_executions order r id =
    sort_by by_name
      (map (λ (e : Str × EvidenceExecution). e.1) (order.iterate _ (evidence_of_packet r id)))

-- Newest first.
unfoldable pub list_evidence_audit_entries : Repository → Str → ℕ → List EvidenceAuditEntry
list_evidence_audit_entries r id limit = limited limit (reverse (audit_of_packet r id))

-- `now` stands for an `UpdatedAt` that is zero.
abbrev pub stamped : ℕ → EvidenceExecution → EvidenceExecution
stamped now e = if e.updated_at == 0 then record e { updated_at = now } else e

unfoldable pub upsert_evidence_execution : ℕ → Repository → EvidenceExecution → Repository
upsert_evidence_execution now r e = record r {
  evidence_by_cpid =
      put e.change_packet_id (put e.name (stamped now e) (evidence_of_packet r e.change_packet_id))
        r.evidence_by_cpid;
}

unfoldable pub record_evidence_update :
    ℕ → Repository → EvidenceExecution → EvidenceAuditEntry → Repository
unfolding upsert_evidence_execution
record_evidence_update now r e a =
    let stored = upsert_evidence_execution now r e in
    record stored {
      audit_by_cpid =
          put a.change_packet_id (audit_of_packet r a.change_packet_id ++ a ∷ []) r.audit_by_cpid;
    }

abbrev pub new_execution : ℕ → Str → EvidenceRequirement → EvidenceExecution
new_execution now id q = record {
  change_packet_id = id;
  name = q.name;
  kind = q.kind;
  status = EvidenceStatus.pending;
  required = q.required;
  summary = [];
  details_url = [];
  updated_by = lit "merger";
  metadata = [];
  updated_at = now;
}

abbrev pub refreshed : ℕ → Str → EvidenceRequirement → Option EvidenceExecution → EvidenceExecution
refreshed now id q none = new_execution now id q
refreshed now id q (some current) = record current { kind = q.kind; required = q.required }

-- The loop of `ensureEvidenceLocked`.
unfoldable pub ensure_evidence :
    ℕ → Str → List EvidenceRequirement → Dict Str EvidenceExecution → Dict Str EvidenceExecution
ensure_evidence now id [] m = m
ensure_evidence now id (q ∷ qs) m =
    ensure_evidence now id qs (put q.name (refreshed now id q (lookup q.name m)) m)

unfoldable pub save_change_packet : ℕ → Repository → ChangePacket → Repository
unfolding ensure_evidence
save_change_packet now r p = record r {
  change_packets = put p.id p r.change_packets;
  evidence_by_cpid =
      put p.id (ensure_evidence now p.id p.evidence (evidence_of_packet r p.id)) r.evidence_by_cpid;
}

unfoldable pub save_deployment_outcome : Repository → DeploymentOutcome → Repository
save_deployment_outcome r outcome = record r { outcomes = r.outcomes ++ outcome ∷ [] }

abbrev later_outcome : DeploymentOutcome → DeploymentOutcome → Bool
later_outcome a b = ltb b.observed_at a.observed_at

unfoldable pub list_deployment_outcomes : Repository → ℕ → List DeploymentOutcome
list_deployment_outcomes r limit = limited limit (sort_by later_outcome r.outcomes)
