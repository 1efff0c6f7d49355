-- ===== src/Ingest/Rerun.antt =====
-- processor.go: check runs after a failure.
use merger.Prelude.{
  ℤ, ◌≡◌, ◌⊎◌, refl, sym, ◌∙◌, inl, inr, Bool, true, false, ◌||◌, List, [], ◌∷◌, Option, none, some,
  ◌==◌, if◌then◌else◌, arith, is_empty,
}
use mathlib.Core.Path.{subst}
use merger.Text.{Str, str_key, lit}
use merger.Domain.{
  EvidenceStatus, EvidenceStatus-discrete, EvidenceRequirement, EvidenceExecution, ChangePacket,
  status_key,
}
use merger.Store.{Repository, find_latest_change_packet}
use merger.ControlPlane.{
  Service, Env, ServiceError, stored_status, IsValid, update_evidence_execution,
  can_transition_evidence,
}
use merger.ControlPlane.Sets.{update-sets}
use merger.ControlPlane.Transitions.{update-legal, update-IsValid}
use merger.Ingest.{
  CheckRun, execution_of, reconcile_requirement, reconcile_packet, reconcile_pull_request,
  continue_with, reconcile_all, evidence_status_for_check_run, process_status, process_check_run,
}
use merger.Ingest.Bound.{error_of_repository}

-- A well-formed repository in which the evidence has failed.
record IsFailed (id name : Str) (r : Repository) : Type 0 where
  valid : IsValid r
  failed : stored_status r id name ≡ EvidenceStatus.failed

abbrev Concluded : EvidenceStatus → Type 0
Concluded status = (status ≡ EvidenceStatus.satisfied) ⊎ (status ≡ EvidenceStatus.failed)

from_failed :
    (after status : EvidenceStatus)
    → Concluded status
    → after ≡ status
    → can_transition_evidence EvidenceStatus.failed after ≡ true
    → after ≡ EvidenceStatus.failed
unfolding can_transition_evidence EvidenceStatus-discrete
from_failed after status (inl c) e h = ground arith
from_failed after status (inr c) e h = e ∙ c

update-IsFailed :
    (s : Service) (env : Env) (r : Repository) (e : EvidenceExecution) (id name : Str)
    → Concluded e.status
    → IsFailed id name r
    → IsFailed id name (update_evidence_execution s env r e).1
update-IsFailed s env r e id name c f = record {
  valid = update-IsValid s env r e f.valid;
  failed = elim (update-sets s env r e id name) [
    | inl same ↦ same ∙ f.failed
    | inr (ids, names, set) ↦ from_failed _ e.status c set (
        subst
          (λ x.
            can_transition_evidence x
              (stored_status (update_evidence_execution s env r e).1 id name)
            ≡ true)
          f.failed (update-legal s env r e id name f.valid))
  ];
}

reconcile_requirement-IsFailed :
    (s : Service) (env : Env) (r : Repository) (run : CheckRun) (status : EvidenceStatus)
    (p : ChangePacket) (o : Option EvidenceRequirement) (id name : Str)
    → Concluded status
    → IsFailed id name r
    → IsFailed id name (reconcile_requirement s env r run status p o).1
unfolding reconcile_requirement
reconcile_requirement-IsFailed s env r run status p none id name c f = f
reconcile_requirement-IsFailed s env r run status p (some q) id name c f =
    subst (IsFailed id name)
      (sym (error_of_repository (update_evidence_execution s env r (execution_of run p q status))))
      (update-IsFailed s env r (execution_of run p q status) id name c f)

reconcile_packet-IsFailed :
    (s : Service) (env : Env) (r : Repository) (run : CheckRun) (status : EvidenceStatus)
    (o : Option ChangePacket) (id name : Str)
    → Concluded status
    → IsFailed id name r
    → IsFailed id name (reconcile_packet s env r run status o).1
unfolding reconcile_packet
reconcile_packet-IsFailed s env r run status none id name c f = f
reconcile_packet-IsFailed s env r run status (some p) id name c f =
    reconcile_requirement-IsFailed s env r run status p _ id name c f

continue_with-IsFailed :
    (id name : Str) (x : Option ServiceError × Repository)
    (next : Repository → Option ServiceError × Repository)
    → IsFailed id name x.1
    → ((r : Repository) → IsFailed id name r → IsFailed id name (next r).1)
    → IsFailed id name (continue_with x next).1
continue_with-IsFailed id name (some e, r) next f g = f
continue_with-IsFailed id name (none, r) next f g = g r f

abbrev packet_for : Service → Repository → CheckRun → ℤ → Option ChangePacket
packet_for s r run n = find_latest_change_packet s.order r run.repo_full_name n run.head_sha

reconcile_all-IsFailed :
    (s : Service) (env : ℤ → Env) (r : Repository) (run : CheckRun) (status : EvidenceStatus)
    (ns : List ℤ) (id name : Str)
    → Concluded status
    → IsFailed id name r
    → IsFailed id name (reconcile_all s env r run status ns).1
unfolding reconcile_all reconcile_pull_request
reconcile_all-IsFailed s env r run status [] id name c f = f
reconcile_all-IsFailed s env r run status (n ∷ ns) id name c f =
    continue_with-IsFailed id name (reconcile_packet s (env n) r run status (packet_for s r run n))
      (λ r'. reconcile_all s env r' run status ns)
      (reconcile_packet-IsFailed s (env n) r run status (packet_for s r run n) id name c f)
      (λ r' f'. reconcile_all-IsFailed s env r' run status ns id name c f')

concluded :
    (run : CheckRun) (status : EvidenceStatus)
    → evidence_status_for_check_run run.status run.conclusion ≡ some status
    → Concluded status
unfolding evidence_status_for_check_run
concluded run status h = ground arith

process_status-IsFailed :
    (s : Service) (env : ℤ → Env) (r : Repository) (run : CheckRun) (o : Option EvidenceStatus)
    (id name : Str)
    → evidence_status_for_check_run run.status run.conclusion ≡ o
    → IsFailed id name r
    → IsFailed id name (process_status s env r run o).1
unfolding process_status
process_status-IsFailed s env r run none id name h f = f
process_status-IsFailed s env r run (some status) id name h f =
    reached (is_empty run.head_sha || is_empty run.repo_full_name)
  where
    reached :
        (b : Bool)
        → IsFailed id name
            (if b then (none, r) else reconcile_all s env r run status run.pull_requests).1
    reached true = f
    reached false =
        reconcile_all-IsFailed s env r run status run.pull_requests id name (concluded run status h)
          f

process_check_run-IsFailed :
    (s : Service) (env : ℤ → Env) (r : Repository) (run : CheckRun) (id name : Str)
    → IsFailed id name r
    → IsFailed id name (process_check_run s env r run).1
unfolding process_check_run
process_check_run-IsFailed s env r run id name f = reached (run.action == lit "completed")
  where
    reached :
        (b : Bool)
        → IsFailed id name
            (if b
              then process_status s env r run
                  (evidence_status_for_check_run run.status run.conclusion)
              else (none, r)).1
    reached true = process_status-IsFailed s env r run _ id name refl f
    reached false = f

-- A sequence of check runs.
unfoldable pub process_runs : Service → (ℤ → Env) → List CheckRun → Repository → Repository
unfolding process_check_run
process_runs s env [] r = r
process_runs s env (run ∷ runs) r = process_runs s env runs (process_check_run s env r run).1

process_runs-IsFailed :
    (s : Service) (env : ℤ → Env) (runs : List CheckRun) (r : Repository) (id name : Str)
    → IsFailed id name r
    → IsFailed id name (process_runs s env runs r)
unfolding process_runs
process_runs-IsFailed s env [] r id name f = f
process_runs-IsFailed s env (run ∷ runs) r id name f =
    process_runs-IsFailed s env runs _ id name (process_check_run-IsFailed s env r run id name f)

-- In a well-formed repository, evidence that has failed stays failed through any sequence of check
-- runs, whatever they conclude: a check that is run again with success does not satisfy it.
pub process_runs-keep_failed :
    (s : Service) (env : ℤ → Env) (runs : List CheckRun) (r : Repository) (id name : Str)
    → IsValid r
    → stored_status r id name ≡ EvidenceStatus.failed
    → stored_status (process_runs s env runs r) id name ≡ EvidenceStatus.failed
process_runs-keep_failed s env runs r id name v h =
    (process_runs-IsFailed s env runs r id name (record { valid = v; failed = h })).failed
