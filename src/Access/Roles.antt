-- ===== src/Access/Roles.antt =====
-- internal/access/authenticator.go: the bearer token of a header, and the roles of an entry.
use merger.Prelude.{
  ◌||◌, not, List, [], ◌∷◌, Option, none, some, ◌==◌, any, if◌then◌else◌, Result, ok, err,
}
use merger.Text.{Str, str_key, lit, trim_space, cut, equal_fold, has_space}
use merger.Access.{Role, role_key, Principal, AccessError, is_supported_role}

pub data RolesError : Type 0 where
  no_role : RolesError
  unsupported duplicate : Role → RolesError

-- The loop of `validatedRoles`; `seen` is the set of the roles that it has passed.
unfoldable pub check_roles : List Role → List Role → Option RolesError
unfolding is_supported_role
check_roles seen [] = none
check_roles seen (role ∷ roles) =
    let rest = check_roles (role ∷ seen) roles in
    if is_supported_role role
    then (if any (λ r. r == role) seen then some (RolesError.duplicate role) else rest)
    else some (RolesError.unsupported role)

-- The slice that `validatedRoles` returns holds the roles that it is given.
abbrev roles_or : Option RolesError → List Role → Result RolesError (List Role)
roles_or none roles = ok roles
roles_or (some e) roles = err e

unfoldable pub validated_roles : List Role → Result RolesError (List Role)
unfolding check_roles
validated_roles [] = err RolesError.no_role
validated_roles (role ∷ roles) = roles_or (check_roles [] (role ∷ roles)) (role ∷ roles)

unfoldable pub token_of : Option (Str × Str) → Result AccessError Str
token_of none = err AccessError.unauthenticated
token_of (some (scheme, rest)) =
    let token = trim_space rest in
    if not (equal_fold scheme (lit "Bearer")) || (token == [] || has_space token)
    then err AccessError.unauthenticated
    else ok token

unfoldable pub bearer_token : Str → Result AccessError Str
unfolding token_of trim_space cut equal_fold has_space lit
bearer_token authorization = token_of (cut b' ' (trim_space authorization))

-- Disabled authentication grants the rights of an administrator.
unfoldable pub disabled_authenticate : Str → Result AccessError Principal
unfolding lit
disabled_authenticate _ = ok (record { subject = lit "local"; roles = Role.admin ∷ [] })
