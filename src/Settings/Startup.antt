-- ===== src/Settings/Startup.antt =====
-- What a configuration that passes the checks of the control plane gives at start-up.
use merger.Prelude.{
  ◌≡◌, refl, sym, ap, ◌∙◌, ℤ, Bool, true, false, List, [], Option, none, some, Result, ok, err,
  bind-ok, arith, is_empty, first_error-none, map, ◌≢◌,
}
use merger.Text.{Str}
use merger.Access.{Principal}
use merger.Access.Roles.{bearer_token}
use merger.Access.Static.{
  StaticCredential, StaticError, new_static_authenticator, static_authenticate,
}
use merger.Access.Claims.{JwtAuthenticator, JwtError, Crypto}
use merger.Access.Jwt.{new_jwt_authenticator, jwt_authenticate}
use merger.Settings.Model.{AccessMode, AccessConfig, Config}
use merger.Settings.AccessRules.{
  validate_access, for_mode, validate_static_token_access, validate_jwt_mode_access,
  validate_access_tokens, validate_jwt_access,
}
use merger.Settings.Fails.{OfEnvironment, OfKey, FailsOnly}
use merger.Settings.StaticAgrees.{new_static-OfEnvironment}
use merger.Settings.JwtAgrees.{new_jwt-OfKey}
use merger.Settings.Services.{
  Authenticator, BuildError, ConfigError, static_token, jwt_config, from_static, from_jwt,
  build_for, build_authenticator, authenticate, failing, validate, validate_for_github_integration,
  validate_for_control_plane, is_production, is_disabled,
}

-- The errors that the environment, the key file and the keys alone can bring about.
abbrev pub OfSurroundings : BuildError → Type 0
OfSurroundings (BuildError.static_error e) = OfEnvironment e
OfSurroundings (BuildError.jwt_error e) = OfKey e
OfSurroundings (BuildError.unsupported_mode m) = ⊥

failing-none {ℓ} : {E : Type ℓ} (o : Option E) (f : E → ConfigError) → failing f o ≡ none → o ≡ none
failing-none none f h = refl
failing-none (some e) f h = cc

static_checks :
    (cfg : AccessConfig)
    → validate_static_token_access cfg ≡ none
    → (is_empty cfg.tokens ≡ false) × (validate_access_tokens 0 [] [] cfg.tokens ≡ none)
unfolding validate_static_token_access
static_checks cfg h = ground arith

jwt_checks :
    (cfg : AccessConfig) → validate_jwt_mode_access cfg ≡ none → validate_jwt_access cfg.jwt ≡ none
unfolding validate_jwt_mode_access
jwt_checks cfg h = ground arith

module _ {Key : Type 0} (sha256 : Str → Str) (x : Crypto Key) where
  from_static-OfSurroundings :
      (r : Result StaticError (List StaticCredential))
      → FailsOnly OfEnvironment r
      → FailsOnly OfSurroundings (from_static {Key = Key} r)
  from_static-OfSurroundings (ok cs) h = tt
  from_static-OfSurroundings (err e) h = h

  from_jwt-OfSurroundings :
      (r : Result JwtError (JwtAuthenticator Key))
      → FailsOnly OfKey r
      → FailsOnly OfSurroundings (from_jwt r)
  from_jwt-OfSurroundings (ok a) h = tt
  from_jwt-OfSurroundings (err e) h = h

  build_for-OfSurroundings :
      (cfg : AccessConfig) (mode : AccessMode)
      → for_mode cfg mode ≡ none
      → FailsOnly OfSurroundings (build_for sha256 x cfg mode)
  build_for-OfSurroundings cfg AccessMode.disabled h = tt
  build_for-OfSurroundings cfg AccessMode.static_token h =
      let (full, tokens) = static_checks cfg h in
      from_static-OfSurroundings
        (new_static_authenticator sha256 x.lookup_env (map static_token cfg.tokens))
        (new_static-OfEnvironment sha256 x.lookup_env cfg.tokens full tokens)
  build_for-OfSurroundings cfg AccessMode.jwt h =
      from_jwt-OfSurroundings (new_jwt_authenticator x (jwt_config cfg.jwt))
        (new_jwt-OfKey x cfg.jwt (jwt_checks cfg h))
  build_for-OfSurroundings cfg (AccessMode.other s) h = cc

  -- With a configuration that passes the checks, building the authenticator fails at most because a
  -- token or the secret is not in the environment, holds space or is used twice, or because no RSA
  -- key can be read.
  pub build_authenticator-OfSurroundings :
      (cfg : Config)
      → validate cfg ≡ none
      → FailsOnly OfSurroundings (build_authenticator sha256 x cfg.access)
  unfolding validate validate_access build_authenticator
  build_authenticator-OfSurroundings cfg h =
      let (a, _) =
        first_error-none (failing ConfigError.in_access (validate_access cfg.access)) _ h in
      build_for-OfSurroundings cfg.access cfg.access.mode
        (failing-none (validate_access cfg.access) ConfigError.in_access a)

  bearer_of :
      (now : ℤ) (a : Authenticator Key) (authorization : Str) (p : Principal)
      → a ≢ Authenticator.disabled
      → authenticate sha256 x now a authorization ≡ ok p
      → (token : Str) × (bearer_token authorization ≡ ok token)
  unfolding authenticate static_authenticate jwt_authenticate
  bearer_of now Authenticator.disabled authorization p n h = absurd (n refl)
  bearer_of now (Authenticator.static_tokens cs) authorization p n h =
      let (token, e, _) = bind-ok (bearer_token authorization) _ h in (token, e)
  bearer_of now (Authenticator.jwt a) authorization p n h =
      let (token, e, _) = bind-ok (bearer_token authorization) _ h in (token, e)

  built_disabled :
      (cfg : AccessConfig) (mode : AccessMode)
      → build_for sha256 x cfg mode ≡ ok Authenticator.disabled
      → is_disabled mode ≡ true
  built_disabled cfg AccessMode.disabled h = refl
  built_disabled cfg AccessMode.static_token h =
      absurd
        (not_static (new_static_authenticator sha256 x.lookup_env (map static_token cfg.tokens)) h)
    where
      not_static :
          (r : Result StaticError (List StaticCredential))
          → from_static {Key = Key} r ≢ ok Authenticator.disabled
      not_static (ok cs) h = cc
      not_static (err e) h = cc
  built_disabled cfg AccessMode.jwt h =
      absurd (not_jwt (new_jwt_authenticator x (jwt_config cfg.jwt)) h)
    where
      not_jwt :
          (r : Result JwtError (JwtAuthenticator Key)) → from_jwt r ≢ ok Authenticator.disabled
      not_jwt (ok a) h = cc
      not_jwt (err e) h = cc
  built_disabled cfg (AccessMode.other s) h = cc

  not_disabled :
      (cfg : Config)
      → validate_for_control_plane cfg ≡ none
      → is_production cfg ≡ true
      → is_disabled cfg.access.mode ≡ false
  unfolding validate_for_control_plane
  not_disabled cfg h prod =
      let (_, k) = first_error-none (validate_for_github_integration cfg) _ h in ground arith

  -- In production, with a configuration that passes the checks of the control plane, whatever
  -- authenticator is built: a header that it accepts holds a bearer token.
  pub production-bearer :
      (cfg : Config) (a : Authenticator Key) (now : ℤ) (authorization : Str) (p : Principal)
      → validate_for_control_plane cfg ≡ none
      → is_production cfg ≡ true
      → build_authenticator sha256 x cfg.access ≡ ok a
      → authenticate sha256 x now a authorization ≡ ok p
      → (token : Str) × (bearer_token authorization ≡ ok token)
  unfolding build_authenticator
  production-bearer cfg a now authorization p h prod made accepted =
      bearer_of now a authorization p
        (λ e. absurd (
          true-ne-false (
            sym (built_disabled cfg.access cfg.access.mode (made ∙ ap ok_of e))
            ∙ not_disabled cfg h prod)))
        accepted
    where
      ok_of : Authenticator Key → Result BuildError (Authenticator Key)
      ok_of b = ok b

      true-ne-false : ◌≢◌ {A = Bool} true false
      true-ne-false e = cc
