-- ===== src/Domain.antt =====
-- internal/domain: the vocabulary of the program. A Go string type with named constants is a data
-- type with those constants; `unset` is the empty string where the code tests for it, and `other`
-- any further text.
mod Kinds
mod Packet
pub use Kinds.*
pub use Packet.*
unfoldable pub use Kinds.{
  MutationKind-discrete, RiskType-discrete, Criticality-discrete, EvidenceStatus-discrete,
}
