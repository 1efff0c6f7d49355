-- ===== src/Access.antt =====
-- internal/access: roles, principals and authorisation (principal.go, authorize.go). A context that
-- carries no principal is `none`.
pub mod Authorize
pub mod Roles
pub mod Static
pub mod Claims
pub mod Jwt
pub mod Granted
pub mod Signed
pub mod Issued
mod Credential
pub mod Holder
use merger.Prelude.{
  Bool, true, false, ◌||◌, List, Option, none, some, ◌==◌, Key, any, if◌then◌else◌, ℕ_discrete,
}
use merger.Text.{Str, is_blank}

pub data Role : Type 0 where
  reader evidence_writer admin : Role
  other : Str → Role

unfoldable pub Role-discrete : Discrete Role
Role-discrete = hlevel ℕ_discrete

instance abbrev pub role_key : Key Role
role_key = record { dec = Role-discrete }

pub record Principal : Type 0 where
  pub subject : Str
  pub roles : List Role

pub data AccessError : Type 0 where
  unauthenticated : AccessError
  unsupported_role : Role → AccessError
  forbidden : Str → Role → AccessError
  panicked : AccessError

unfoldable pub has_role : Principal → Role → Bool
has_role p role = any (λ candidate. candidate == role) p.roles

unfoldable pub is_supported_role : Role → Bool
is_supported_role (Role.other _) = false
is_supported_role _ = true

-- `none` where `Authorize` returns nil.
unfoldable pub authorize : Principal → Role → Option AccessError
unfolding is_supported_role
authorize p role =
    if is_blank p.subject
    then some AccessError.unauthenticated
    else if is_supported_role role
    then (if has_role p Role.admin || has_role p role
        then none
        else some (AccessError.forbidden p.subject role))
    else some (AccessError.unsupported_role role)

unfoldable pub require_role : Option Principal → Role → Option AccessError
unfolding authorize
require_role none role = some AccessError.unauthenticated
require_role (some p) role = authorize p role
