-- ===== src/Ingest.antt =====
-- internal/ingest/processor.go and check_reconciliation.go: a GitHub check run that is complete
-- updates the evidence that a policy binds to it.
mod Found
pub mod Bound
pub mod Rerun
use Prim.Native.Nat.{◌/◌, ◌%◌}
use merger.Prelude.{
  ℕ, zero, suc, ◌+◌, ℤ, pos, negsuc, Bool, true, false, not, ◌&&◌, ◌||◌, List, [], ◌∷◌, ◌++◌,
  Option, none, some, ◌==◌, if◌then◌else◌, MapOrder, Result, ok, err, is_empty, ltb,
}
use merger.Prelude.Int.{int_key}
use merger.Text.{Str, str_key, lit}
use merger.Domain.{
  EvidenceStatus, EvidenceRequirement, EvidenceExecution, GitHubCheckBinding, ChangePacket,
}
use merger.Store.{Repository, find_latest_change_packet}
use merger.ControlPlane.{Service, Env, ServiceError, update_evidence_execution}

-- The part of `CheckRunWebhookPayload` that is read.
pub record CheckRun : Type 0 where
  pub action : Str
  pub repo_full_name : Str
  pub id : ℤ
  pub name : Str
  pub head_sha : Str
  pub status : Str
  pub conclusion : Str
  pub details_url : Str
  pub app_id : ℤ
  pub title : Str
  pub summary : Str
  pub pull_requests : List ℤ

-- The Boolean of the source is the presence of a status.
unfoldable pub evidence_status_for_check_run : Str → Str → Option EvidenceStatus
evidence_status_for_check_run status conclusion =
    if status == lit "completed"
    then some
        (if conclusion == lit "success" then EvidenceStatus.satisfied else EvidenceStatus.failed)
    else none

abbrev pub is_bound : Str → ℤ → Option GitHubCheckBinding → Bool
is_bound name app none = false
is_bound name app (some b) = b.name == name && b.app_id == app

unfoldable pub matching_evidence_requirement :
    List EvidenceRequirement → Str → ℤ → Option EvidenceRequirement
matching_evidence_requirement [] name app = none
matching_evidence_requirement (q ∷ qs) name app =
    if is_bound name app q.github_check then some q else matching_evidence_requirement qs name app

-- `%d`; the fuel of 20 digits is enough for the integers of 64 bits.
abbrev decimal_from : ℕ → ℕ → Str → Str
decimal_from zero n acc = acc
decimal_from (suc fuel) n acc =
    let digits = (b'0' + n % 10) ∷ acc in
    let rest = decimal_from fuel (n / 10) digits in if ltb n 10 then digits else rest

unfoldable pub decimal : ℤ → Str
decimal (pos n) = decimal_from 20 n []
decimal (negsuc n) = b'-' ∷ decimal_from 20 (suc n) []

abbrev or_title : Str → Str → Str
or_title [] title = title
or_title (c ∷ summary) title = c ∷ summary

-- The update that a check run asks for.
abbrev pub execution_of :
    CheckRun → ChangePacket → EvidenceRequirement → EvidenceStatus → EvidenceExecution
execution_of run p q status = record {
  change_packet_id = p.id;
  name = q.name;
  kind = [];
  status = status;
  required = false;
  summary = or_title run.summary run.title;
  details_url = run.details_url;
  updated_by = lit "github-app:" ++ decimal run.app_id;
  metadata =
      (lit "github_check_run_id", decimal run.id)
      ∷ (lit "github_check_name", run.name)
      ∷ (lit "github_app_id", decimal run.app_id)
      ∷ (lit "github_head_sha", run.head_sha)
      ∷ [];
  updated_at = 0;
}

abbrev pub error_of :
    {A : Type 0} → Result ServiceError A × Repository → Option ServiceError × Repository
error_of (ok _, r) = (none, r)
error_of (err e, r) = (some e, r)

-- `reconcileCheckRunForPullRequest` after the packet and its requirement are looked up.
unfoldable pub reconcile_requirement :
    Service
    → Env
    → Repository
    → CheckRun
    → EvidenceStatus
    → ChangePacket
    → Option EvidenceRequirement
    → Option ServiceError × Repository
unfolding decimal
reconcile_requirement s env r run status p none = (none, r)
reconcile_requirement s env r run status p (some q) =
    error_of (update_evidence_execution s env r (execution_of run p q status))

unfoldable pub reconcile_packet :
    Service
    → Env
    → Repository
    → CheckRun
    → EvidenceStatus
    → Option ChangePacket
    → Option ServiceError × Repository
unfolding matching_evidence_requirement reconcile_requirement
reconcile_packet s env r run status none = (none, r)
reconcile_packet s env r run status (some p) =
    reconcile_requirement s env r run status p
      (matching_evidence_requirement p.evidence run.name run.app_id)

unfoldable pub reconcile_pull_request :
    Service → Env → Repository → CheckRun → EvidenceStatus → ℤ → Option ServiceError × Repository
unfolding reconcile_packet
reconcile_pull_request s env r run status number =
    reconcile_packet s env r run status
      (find_latest_change_packet s.order r run.repo_full_name number run.head_sha)

-- The loop over the pull requests: the first error ends it. Each turn has its own environment.
abbrev pub continue_with :
    Option ServiceError × Repository
    → (Repository → Option ServiceError × Repository)
    → Option ServiceError × Repository
continue_with (some e, r) next = (some e, r)
continue_with (none, r) next = next r

unfoldable pub reconcile_all :
    Service
    → (ℤ → Env)
    → Repository
    → CheckRun
    → EvidenceStatus
    → List ℤ
    → Option ServiceError × Repository
unfolding reconcile_pull_request
reconcile_all s env r run status [] = (none, r)
reconcile_all s env r run status (n ∷ ns) =
    continue_with (reconcile_pull_request s (env n) r run status n)
      (λ r'. reconcile_all s env r' run status ns)

-- `ProcessCheckRun` after the status is known.
unfoldable pub process_status :
    Service
    → (ℤ → Env)
    → Repository
    → CheckRun
    → Option EvidenceStatus
    → Option ServiceError × Repository
unfolding reconcile_all
process_status s env r run none = (none, r)
process_status s env r run (some status) =
    if is_empty run.head_sha || is_empty run.repo_full_name
    then (none, r)
    else reconcile_all s env r run status run.pull_requests

-- `ProcessCheckRun` of a processor with a store and an evidence updater.
unfoldable pub process_check_run :
    Service → (ℤ → Env) → Repository → CheckRun → Option ServiceError × Repository
unfolding evidence_status_for_check_run process_status
process_check_run s env r run =
    if run.action == lit "completed"
    then process_status s env r run (evidence_status_for_check_run run.status run.conclusion)
    else (none, r)
