-- ===== src/Tests/AccessRuns.antt =====
-- Runs of the authorisation.
use merger.Prelude.{◌≡◌, ◌↔◌, [], ◌∷◌, none, some}
use merger.Text.{lit}
use merger.Access.{Principal, Role, require_role}
use merger.Access.Authorize.{MayAct, require_role_iff}

abbrev ci : Principal
ci = record { subject = lit "ci"; roles = Role.evidence_writer ∷ [] }

require_role_iff_example :
    (require_role (some ci) Role.evidence_writer ≡ none)
    ↔ ((p : Principal) × (some ci ≡ some p) × MayAct p Role.evidence_writer)
require_role_iff_example = require_role_iff (some ci) Role.evidence_writer
