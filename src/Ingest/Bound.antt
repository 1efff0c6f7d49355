-- ===== src/Ingest/Bound.antt =====
-- processor.go: which evidence a check run can change.
use merger.Prelude.{
  ℤ, ◌≡◌, ◌⊎◌, refl, true, ◌&&◌, any, ◌==◌, if◌then◌else◌, Result, ok, err, nat_key,
}
use merger.Prelude.Int.{int_key}
use merger.Text.{Str, str_key, lit}
use merger.Domain.{EvidenceStatus, ChangePacket}
use merger.Store.{Repository, same_head}
use merger.ControlPlane.{ServiceError, stored_status}
use merger.Ingest.{CheckRun, is_bound, error_of}

-- A packet of the repository, the pull request and the head of the run, which has evidence of that
-- name bound to the check and the app of the run.
pub record IsBound (run : CheckRun) (id name : Str) : Type 0 where
  pub packet : ChangePacket
  pub number : ℤ
  pub same_head_as : same_head run.repo_full_name number run.head_sha packet ≡ true
  pub same_id : packet.id ≡ id
  pub bound :
      any (λ q. q.name == name && is_bound run.name run.app_id q.github_check) packet.evidence
      ≡ true

-- What a part of the processing does to one status.
abbrev Touches : CheckRun → Str → Str → EvidenceStatus → Repository → Repository → Type 0
Touches run id name status r r' =
    (stored_status r' id name ≡ stored_status r id name)
    ⊎ (IsBound run id name × (stored_status r' id name ≡ status))

pub error_of_repository :
    {A : Type 0} (x : Result ServiceError A × Repository) → (error_of x).1 ≡ x.1
error_of_repository (ok _, r) = refl
error_of_repository (err _, r) = refl

-- What holds where a check run changes the status of a piece of evidence.
pub record IsCause (run : CheckRun) (id name : Str) (status : EvidenceStatus) : Type 0 where
  pub complete : run.status ≡ lit "completed"
  pub bound : IsBound run id name
  pub conclusion : status ≡ (
      if run.conclusion == lit "success" then EvidenceStatus.satisfied else EvidenceStatus.failed)
