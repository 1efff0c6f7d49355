-- ===== src/Settings/Services.antt =====
-- internal/config/config.go: what each service asks of the configuration; and the choice of the
-- authenticator in cmd/merger-controlplane/main.go.
use merger.Prelude.{
  ℤ, Bool, true, false, not, ◌&&◌, ◌||◌, List, [], ◌∷◌, Option, none, some, ◌==◌, if◌then◌else◌,
  is_empty, first_error, Result, ok, err, any, map,
}
use merger.Text.{Str, str_key, lit, trim_space, to_lower}
use merger.Access.{AccessError, Principal}
use merger.Access.Roles.{disabled_authenticate}
use merger.Access.Static.{
  static_authenticate, StaticToken, StaticCredential, StaticError, new_static_authenticator,
}
use merger.Access.Claims.{ClaimBinding, JwtConfig, JwtError, JwtAuthenticator, Crypto}
use merger.Access.Jwt.{new_jwt_authenticator, jwt_authenticate}
use merger.Settings.{LanesError, validate_lanes}
use merger.Settings.Model.{
  defaults, AccessMode, AccessTokenConfig, AccessJwtBindingConfig, AccessJwtConfig, AccessConfig,
  GitHubConfig, Config,
}
use merger.Settings.AccessRules.{AccessConfigError, validate_access}

pub data ConfigError : Type 0 where
  in_access : AccessConfigError → ConfigError
  in_lanes : LanesError → ConfigError
  unsupported_events unsupported_persistence : Str → ConfigError
  github_settings : List Str → ConfigError
  disabled_in_production : ConfigError
  unreadable bad_yaml trailing_document : ConfigError

abbrev pub failing {ℓ} : {E : Type ℓ} → (E → ConfigError) → Option E → Option ConfigError
failing f none = none
failing f (some e) = some (f e)

unfoldable pub one_of : Str → List Str → Bool
one_of value allowed = any (λ candidate. value == candidate) allowed

unfoldable pub validate : Config → Option ConfigError
unfolding validate_access validate_lanes one_of lit
validate cfg = first_error (failing ConfigError.in_access (validate_access cfg.access)) (
    first_error (failing ConfigError.in_lanes (validate_lanes cfg.lanes)) (
      if not (one_of cfg.events.backend (lit "memory" ∷ lit "nats" ∷ []))
      then some (ConfigError.unsupported_events cfg.events.backend)
      else if not (one_of cfg.persistence.backend (lit "memory" ∷ lit "postgres" ∷ []))
      then some (ConfigError.unsupported_persistence cfg.persistence.backend)
      else none))

unfoldable pub missing_or_placeholder : Str → Bool
unfolding to_lower trim_space lit
missing_or_placeholder value =
    any (λ s. to_lower (trim_space value) == s)
      ([]
        ∷ lit "replace-me"
        ∷ lit "replace_me"
        ∷ lit "change-me"
        ∷ lit "changeme"
        ∷ lit "todo"
        ∷ [])

abbrev name_if : Bool → Str → List Str → List Str
name_if true name names = name ∷ names
name_if false name names = names

unfoldable pub missing_settings : GitHubConfig → List Str
unfolding missing_or_placeholder lit
missing_settings github =
    name_if (missing_or_placeholder github.webhook_secret) (lit "github.webhook_secret") (
      name_if (missing_or_placeholder github.app_id) (lit "github.app_id") (
        name_if (missing_or_placeholder github.private_key_path) (lit "github.private_key_path")
          []))

-- `ValidateForService` is `validate`.
unfoldable pub validate_for_github_integration : Config → Option ConfigError
unfolding validate missing_settings
validate_for_github_integration cfg = first_error (validate cfg) (
    if not cfg.github.enabled
    then none
    else if is_empty (missing_settings cfg.github)
    then none
    else some (ConfigError.github_settings (missing_settings cfg.github)))

abbrev pub is_disabled : AccessMode → Bool
is_disabled AccessMode.disabled = true
is_disabled _ = false

unfoldable pub is_production : Config → Bool
unfolding to_lower trim_space lit
is_production cfg =
    let environment = to_lower (trim_space cfg.telemetry.environment) in
    environment == lit "prod" || environment == lit "production"

unfoldable pub validate_for_control_plane : Config → Option ConfigError
unfolding validate_for_github_integration is_production
validate_for_control_plane cfg = first_error (validate_for_github_integration cfg) (
    if is_disabled cfg.access.mode && is_production cfg
    then some ConfigError.disabled_in_production
    else none)

-- `Load`: the file is what ReadFile gives; the decoder, started from the defaults, gives the
-- configuration and whether another document follows.
pub record Decoded : Type 0 where
  pub config : Config
  pub trailing : Bool

abbrev checked : Config → Option ConfigError → Result ConfigError Config
checked cfg none = ok cfg
checked cfg (some e) = err e

abbrev decoded : Option Decoded → Result ConfigError Config
decoded none = err ConfigError.bad_yaml
decoded (some d) =
    if d.trailing then err ConfigError.trailing_document else checked d.config (validate d.config)

abbrev read : (Str → Option Decoded) → Option Str → Result ConfigError Config
read decode none = err ConfigError.unreadable
read decode (some raw) = decoded (decode raw)

unfoldable pub load :
    (Str → Option Str) → (Config → Str → Option Decoded) → Str → Result ConfigError Config
unfolding validate defaults
load read_file decode path = read (decode defaults) (read_file path)

-- The authenticator of the control plane.
pub data Authenticator (Key : Type 0) : Type 0 where
  disabled : Authenticator Key
  static_tokens : List StaticCredential → Authenticator Key
  jwt : JwtAuthenticator Key → Authenticator Key

pub data BuildError : Type 0 where
  static_error : StaticError → BuildError
  jwt_error : JwtError → BuildError
  unsupported_mode : AccessMode → BuildError

abbrev pub static_token : AccessTokenConfig → StaticToken
static_token t = record { subject = t.subject; token_env = t.token_env; roles = t.roles }

abbrev pub claim_binding : AccessJwtBindingConfig → ClaimBinding
claim_binding b = record { claim_value = b.claim_value; roles = b.roles }

abbrev pub jwt_config : AccessJwtConfig → JwtConfig
jwt_config c = record {
  algorithm = c.algorithm;
  issuer = c.issuer;
  audience = c.audience;
  subject_claim = c.subject_claim;
  roles_claim = c.roles_claim;
  secret_env = c.secret_env;
  public_key_path = c.public_key_path;
  role_bindings = map claim_binding c.role_bindings;
}

abbrev pub from_static :
    {Key : Type 0}
    → Result StaticError (List StaticCredential)
    → Result BuildError (Authenticator Key)
from_static (err e) = err (BuildError.static_error e)
from_static (ok cs) = ok (Authenticator.static_tokens cs)

abbrev pub from_jwt :
    {Key : Type 0} → Result JwtError (JwtAuthenticator Key) → Result BuildError (Authenticator Key)
from_jwt (err e) = err (BuildError.jwt_error e)
from_jwt (ok a) = ok (Authenticator.jwt a)

module _ {Key : Type 0} (sha256 : Str → Str) (x : Crypto Key) where
  abbrev pub build_for : AccessConfig → AccessMode → Result BuildError (Authenticator Key)
  build_for cfg AccessMode.disabled = ok Authenticator.disabled
  build_for cfg AccessMode.static_token =
      from_static (new_static_authenticator sha256 x.lookup_env (map static_token cfg.tokens))
  build_for cfg AccessMode.jwt = from_jwt (new_jwt_authenticator x (jwt_config cfg.jwt))
  build_for cfg (AccessMode.other s) = err (BuildError.unsupported_mode (AccessMode.other s))

  unfoldable pub build_authenticator : AccessConfig → Result BuildError (Authenticator Key)
  unfolding new_static_authenticator new_jwt_authenticator
  build_authenticator cfg = build_for cfg cfg.mode

  -- The call of the interface.
  unfoldable pub authenticate : ℤ → Authenticator Key → Str → Result AccessError Principal
  unfolding disabled_authenticate static_authenticate jwt_authenticate
  authenticate now Authenticator.disabled authorization = disabled_authenticate authorization
  authenticate now (Authenticator.static_tokens cs) authorization =
      static_authenticate sha256 cs authorization
  authenticate now (Authenticator.jwt a) authorization = jwt_authenticate x now a authorization
