-- ===== src/ControlPlane/Evidence.antt =====
-- service.go: the statuses of evidence and the requirements of a packet.
use merger.Prelude.{
  Bool, true, false, not, ◌&&◌, ◌||◌, List, [], ◌∷◌, Option, none, some, ◌==◌, any, if◌then◌else◌,
  MapOrder, Dict, lookup, put, nat_key,
}
use merger.Text.{Str, str_key}
use merger.Domain.{
  EvidenceExecution, EvidenceRequirement, EvidenceStatus, status_key, ReviewerRequirement,
}
use merger.Store.{Repository, list_evidence_executions}

unfoldable pub valid_evidence_status : EvidenceStatus → Bool
valid_evidence_status EvidenceStatus.pending = true
valid_evidence_status EvidenceStatus.running = true
valid_evidence_status EvidenceStatus.satisfied = true
valid_evidence_status EvidenceStatus.failed = true
valid_evidence_status EvidenceStatus.waived = true
valid_evidence_status _ = false

-- The table of `canTransitionEvidence` for two different states.
abbrev moves : EvidenceStatus → EvidenceStatus → Bool
moves EvidenceStatus.pending EvidenceStatus.running = true
moves EvidenceStatus.pending EvidenceStatus.satisfied = true
moves EvidenceStatus.pending EvidenceStatus.failed = true
moves EvidenceStatus.pending EvidenceStatus.waived = true
moves EvidenceStatus.running EvidenceStatus.satisfied = true
moves EvidenceStatus.running EvidenceStatus.failed = true
moves EvidenceStatus.running EvidenceStatus.waived = true
moves EvidenceStatus.failed EvidenceStatus.running = true
moves EvidenceStatus.failed EvidenceStatus.waived = true
moves _ _ = false

unfoldable pub can_transition_evidence : EvidenceStatus → EvidenceStatus → Bool
can_transition_evidence from to = if from == to then true else moves from to

unfoldable pub find_evidence_requirement :
    List EvidenceRequirement → Str → Option EvidenceRequirement
find_evidence_requirement [] name = none
find_evidence_requirement (q ∷ qs) name =
    if q.name == name then some q else find_evidence_requirement qs name

-- The loop of `currentEvidenceStatus`.
unfoldable pub status_in : List EvidenceExecution → Str → EvidenceStatus
status_in [] name = EvidenceStatus.pending
status_in (e ∷ es) name = if e.name == name then e.status else status_in es name

unfoldable pub current_evidence_status : MapOrder → Repository → Str → Str → EvidenceStatus
unfolding status_in
current_evidence_status order r id name = status_in (list_evidence_executions order r id) name

-- The map `statusByName`; a missing name reads as the empty status.
unfoldable pub statuses_by_name :
    List EvidenceExecution → Dict Str EvidenceStatus → Dict Str EvidenceStatus
statuses_by_name [] m = m
statuses_by_name (e ∷ es) m = statuses_by_name es (put e.name e.status m)

abbrev pub or_unset : Option EvidenceStatus → EvidenceStatus
or_unset none = EvidenceStatus.unset
or_unset (some s) = s

abbrev pub is_done : EvidenceStatus → Bool
is_done EvidenceStatus.satisfied = true
is_done EvidenceStatus.waived = true
is_done _ = false

unfoldable pub all_done : Dict Str EvidenceStatus → List EvidenceRequirement → Bool
all_done m [] = true
all_done m (q ∷ qs) = (not q.required || is_done (or_unset (lookup q.name m))) && all_done m qs

unfoldable pub required_evidence_complete : List EvidenceRequirement → List EvidenceExecution → Bool
unfolding statuses_by_name all_done
required_evidence_complete requirements executions =
    all_done (statuses_by_name executions []) requirements

unfoldable pub has_mandatory_reviewers : List ReviewerRequirement → Bool
has_mandatory_reviewers = any (λ r. r.mandatory)
