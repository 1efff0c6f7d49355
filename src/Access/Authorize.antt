-- ===== src/Access/Authorize.antt =====
-- Who may do what.
use merger.Prelude.{◌≡◌, sym, ◌⊎◌, ◌↔◌, true, false, Option, none, some, arith}
use mathlib.Core.Path.{subst}
use merger.Text.{is_blank}
use merger.Access.{Role, Principal, has_role, is_supported_role, authorize, require_role}

pub record MayAct (p : Principal) (role : Role) : Type 0 where
  pub named : is_blank p.subject ≡ false
  pub known : is_supported_role role ≡ true
  pub granted : (has_role p Role.admin ≡ true) ⊎ (has_role p role ≡ true)

pub authorized : (p : Principal) (role : Role) → MayAct p role → authorize p role ≡ none
unfolding authorize
authorized p role m = ground arith

-- A request is authorised for a role exactly when it carries a principal whose subject is not blank,
-- the role is one that merger knows, and the principal holds that role or is an administrator.
pub require_role_iff :
    (ctx : Option Principal) (role : Role)
    → (require_role ctx role ≡ none) ↔ ((p : Principal) × (ctx ≡ some p) × MayAct p role)
unfolding require_role
require_role_iff none role = (λ h. absurd (cc), λ (p, e, m). cc)
require_role_iff (some p) role = (
  λ h. (
    p,
    ground arith,
    record { named = ground arith; known = ground arith; granted = ground arith },
  ),
  λ (q, e, m). let same : p ≡ q = cc in authorized p role (subst (λ x. MayAct x role) (sym same) m),
)
