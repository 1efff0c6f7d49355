-- ===== src/Tests/SettingsRuns.antt =====
-- Runs of the checks of the configuration and of the start-up.
use merger.Prelude.{◌≡◌, refl, pos, true, [], ◌∷◌, none, ok}
use merger.Text.{Str, lit}
use merger.Access.{Role}
use merger.Access.Roles.{bearer_token}
use merger.Settings.Model.{AccessMode, AccessConfig, Config, no_jwt, defaults}
use merger.Settings.Services.{
  Authenticator, validate, validate_for_control_plane, is_production, build_authenticator,
  authenticate,
}
use merger.Settings.Fails.{FailsOnly}
use merger.Settings.Startup.{OfSurroundings, build_authenticator-OfSurroundings, production-bearer}
use merger.Tests.AuthRuns.{digest, plain, ci_credential}

abbrev token_access : AccessConfig
token_access = record {
  mode = AccessMode.static_token;
  tokens =
      record { subject = lit " ci "; token_env = lit "CI_TOKEN"; roles = Role.evidence_writer ∷ [] }
      ∷ [];
  jwt = no_jwt;
}

abbrev production : Config
production = record defaults {
  access = token_access;
  telemetry = record { service_name = lit "merger"; environment = lit " Production" };
}

production_valid : validate production ≡ none
unfolding validate defaults
production_valid = refl

production_checked : validate_for_control_plane production ≡ none
unfolding validate_for_control_plane defaults
production_checked = refl

production_named : is_production production ≡ true
unfolding is_production defaults
production_named = refl

production_built :
    build_authenticator digest plain production.access
    ≡ ok (Authenticator.static_tokens (ci_credential ∷ []))
unfolding build_authenticator defaults
production_built = refl

abbrev ci_header : Str
ci_header = lit "BEARER  s3cret"

ci_accepted :
    authenticate digest plain (pos 0) (Authenticator.static_tokens (ci_credential ∷ [])) ci_header
    ≡ ok (record { subject = lit "ci"; roles = Role.evidence_writer ∷ [] })
unfolding authenticate
ci_accepted = refl

defaults_valid : validate defaults ≡ none
unfolding validate defaults
defaults_valid = refl

build_authenticator-OfSurroundings_example :
    FailsOnly OfSurroundings (build_authenticator digest plain production.access)
build_authenticator-OfSurroundings_example =
    build_authenticator-OfSurroundings digest plain production production_valid

production-bearer_example : (token : Str) × (bearer_token ci_header ≡ ok token)
production-bearer_example =
    production-bearer digest plain production (Authenticator.static_tokens (ci_credential ∷ []))
      (pos 0) ci_header (record { subject = lit "ci"; roles = Role.evidence_writer ∷ [] })
      production_checked production_named production_built ci_accepted
