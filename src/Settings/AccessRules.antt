-- ===== src/Settings/AccessRules.antt =====
-- internal/config/config.go: the checks of the access section.
use merger.Prelude.{
  ℕ, suc, Bool, true, false, not, ◌&&◌, ◌||◌, List, [], ◌∷◌, Option, none, some, ◌==◌,
  if◌then◌else◌, is_empty, first_error, leb, nat_key,
}
use merger.Text.{Str, str_key, lit, trim_space, to_upper, to_lower, is_blank}
use merger.Access.Roles.{RolesError, check_roles}
use merger.Access.Static.{member}
use merger.Access.{Role}
use merger.Settings.Model.{
  AccessMode, AccessTokenConfig, AccessJwtBindingConfig, AccessJwtConfig, AccessConfig,
}

pub data AccessConfigError : Type 0 where
  unsupported_mode : AccessMode → AccessConfigError
  tokens_not_empty jwt_not_empty no_tokens : AccessConfigError
  empty_subject bad_token_env : ℕ → AccessConfigError
  duplicate_subject duplicate_env : Str → AccessConfigError
  bad_roles : ℕ → RolesError → AccessConfigError
  unsupported_algorithm : Str → AccessConfigError
  bad_secret_env key_path_not_empty secret_env_not_empty no_key_path : AccessConfigError
  empty_issuer empty_audience blank_subject_claim blank_roles_claim : AccessConfigError
  no_bindings : AccessConfigError
  empty_claim_value : ℕ → AccessConfigError
  duplicate_claim_value : ℕ → Str → AccessConfigError

abbrev between : ℕ → ℕ → ℕ → Bool
between lo hi c = leb lo c && leb c hi

abbrev name_byte : Bool → ℕ → Bool
name_byte first c =
    between b'A' b'Z' c
    || (between b'a' b'z' c || (c == b'_' || (not first && between b'0' b'9' c)))

name_bytes : Bool → Str → Bool
name_bytes first [] = true
name_bytes first (c ∷ name) = name_byte first c && name_bytes false name

unfoldable pub valid_environment_name : Str → Bool
unfolding name_bytes
valid_environment_name [] = false
valid_environment_name (c ∷ name) = name_bytes true (c ∷ name)

unfoldable pub validate_role_set : List Role → Option RolesError
unfolding check_roles
validate_role_set [] = some RolesError.no_role
validate_role_set (role ∷ roles) = check_roles [] (role ∷ roles)

abbrev pub in_entry : ℕ → Option RolesError → Option AccessConfigError
in_entry index none = none
in_entry index (some e) = some (AccessConfigError.bad_roles index e)

-- `validateAccessToken`, and the entries that follow with the sets that it leaves.
unfoldable pub validate_access_tokens :
    ℕ → List Str → List Str → List AccessTokenConfig → Option AccessConfigError
unfolding trim_space to_lower valid_environment_name validate_role_set
validate_access_tokens index subjects environments [] = none
validate_access_tokens index subjects environments (token ∷ tokens) =
    let subject = trim_space token.subject in
    let token_env = trim_space token.token_env in
    let rest =
      validate_access_tokens (suc index) (to_lower subject ∷ subjects) (token_env ∷ environments)
        tokens in
    if subject == []
    then some (AccessConfigError.empty_subject index)
    else if member (to_lower subject) subjects
    then some (AccessConfigError.duplicate_subject subject)
    else if not (valid_environment_name token_env)
    then some (AccessConfigError.bad_token_env index)
    else if member token_env environments
    then some (AccessConfigError.duplicate_env token_env)
    else first_error (in_entry index (validate_role_set token.roles)) rest

unfoldable pub validate_jwt_algorithm : AccessJwtConfig → Option AccessConfigError
unfolding trim_space to_upper valid_environment_name is_blank lit
validate_jwt_algorithm cfg =
    let algorithm = to_upper (trim_space cfg.algorithm) in
    if algorithm == lit "HS256"
    then (if not (valid_environment_name (trim_space cfg.secret_env))
        then some AccessConfigError.bad_secret_env
        else if not (is_blank cfg.public_key_path)
        then some AccessConfigError.key_path_not_empty
        else none)
    else if algorithm == lit "RS256"
    then (if not (is_blank cfg.secret_env)
        then some AccessConfigError.secret_env_not_empty
        else if is_blank cfg.public_key_path
        then some AccessConfigError.no_key_path
        else none)
    else some (AccessConfigError.unsupported_algorithm cfg.algorithm)

unfoldable pub validate_jwt_claims_config : AccessJwtConfig → Option AccessConfigError
unfolding is_blank
validate_jwt_claims_config cfg =
    if is_blank cfg.issuer
    then some AccessConfigError.empty_issuer
    else if is_blank cfg.audience
    then some AccessConfigError.empty_audience
    else if is_blank cfg.subject_claim && not (cfg.subject_claim == [])
    then some AccessConfigError.blank_subject_claim
    else if is_blank cfg.roles_claim && not (cfg.roles_claim == [])
    then some AccessConfigError.blank_roles_claim
    else if is_empty cfg.role_bindings
    then some AccessConfigError.no_bindings
    else none

-- The loop of `validateJWTBindings`.
unfoldable pub validate_jwt_bindings :
    ℕ → List Str → List AccessJwtBindingConfig → Option AccessConfigError
unfolding trim_space validate_role_set
validate_jwt_bindings index seen [] = none
validate_jwt_bindings index seen (binding ∷ bindings) =
    let value = trim_space binding.claim_value in
    let rest = validate_jwt_bindings (suc index) (value ∷ seen) bindings in
    if value == []
    then some (AccessConfigError.empty_claim_value index)
    else if member value seen
    then some (AccessConfigError.duplicate_claim_value index binding.claim_value)
    else first_error (in_entry index (validate_role_set binding.roles)) rest

unfoldable pub validate_jwt_access : AccessJwtConfig → Option AccessConfigError
unfolding validate_jwt_algorithm validate_jwt_claims_config validate_jwt_bindings
validate_jwt_access cfg =
    first_error (validate_jwt_algorithm cfg)
      (first_error (validate_jwt_claims_config cfg) (validate_jwt_bindings 0 [] cfg.role_bindings))

unfoldable pub is_zero_jwt_config : AccessJwtConfig → Bool
unfolding is_blank
is_zero_jwt_config cfg =
    is_blank cfg.algorithm
    && (is_blank cfg.issuer
        && (is_blank cfg.audience
            && (is_blank cfg.subject_claim
                && (is_blank cfg.roles_claim
                    && (is_blank cfg.secret_env
                        && (is_blank cfg.public_key_path && is_empty cfg.role_bindings))))))

unfoldable pub validate_disabled_access : AccessConfig → Option AccessConfigError
unfolding is_zero_jwt_config
validate_disabled_access cfg =
    if not (is_empty cfg.tokens)
    then some AccessConfigError.tokens_not_empty
    else if not (is_zero_jwt_config cfg.jwt)
    then some AccessConfigError.jwt_not_empty
    else none

unfoldable pub validate_static_token_access : AccessConfig → Option AccessConfigError
unfolding is_zero_jwt_config validate_access_tokens
validate_static_token_access cfg =
    if is_empty cfg.tokens
    then some AccessConfigError.no_tokens
    else if not (is_zero_jwt_config cfg.jwt)
    then some AccessConfigError.jwt_not_empty
    else validate_access_tokens 0 [] [] cfg.tokens

unfoldable pub validate_jwt_mode_access : AccessConfig → Option AccessConfigError
unfolding validate_jwt_access
validate_jwt_mode_access cfg =
    if not (is_empty cfg.tokens)
    then some AccessConfigError.tokens_not_empty
    else validate_jwt_access cfg.jwt

abbrev pub for_mode : AccessConfig → AccessMode → Option AccessConfigError
for_mode cfg AccessMode.disabled = validate_disabled_access cfg
for_mode cfg AccessMode.static_token = validate_static_token_access cfg
for_mode cfg AccessMode.jwt = validate_jwt_mode_access cfg
for_mode cfg (AccessMode.other s) = some (AccessConfigError.unsupported_mode (AccessMode.other s))

unfoldable pub validate_access : AccessConfig → Option AccessConfigError
unfolding validate_disabled_access validate_static_token_access validate_jwt_mode_access
validate_access cfg = for_mode cfg cfg.mode
