-- ===== src/ControlPlane/Errors.antt =====
-- errors.go, and the errors that service.go returns.
use merger.Text.{Str}
use merger.Domain.{EvidenceStatus}

-- The field that an EvidenceValidationError names.
pub data Field : Type 0 where
  change_packet_id name status updated_by outcome source : Field

pub data ServiceError : Type 0 where
  change_packet_not_found : ServiceError
  invalid : Field → ServiceError
  evidence_not_found : Str → Str → ServiceError
  bad_transition : Str → EvidenceStatus → EvidenceStatus → ServiceError
  publish_failed : Str → ServiceError
