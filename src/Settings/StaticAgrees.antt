-- ===== src/Settings/StaticAgrees.antt =====
-- A static token configuration that passes the checks is one that the constructor accepts, as far
-- as the environment allows.
use merger.Prelude.{
  ◌≡◌, ℕ, suc, true, false, List, [], ◌∷◌, Option, none, some, ◌==◌, Result, ok, err, ◌>>=◌, arith,
  map, is_empty, first_error-none,
}
use merger.Text.{Str, str_key, trim_space, to_lower}
use merger.Access.{Role}
use merger.Access.Static.{
  StaticCredential, StaticError, Taken, nothing_taken, member, credential_of, take_entry,
  take_entries, new_static_authenticator,
}
use merger.Settings.Model.{AccessTokenConfig}
use merger.Settings.AccessRules.{
  validate_role_set, in_entry, validate_access_tokens, valid_environment_name,
}
use merger.Settings.Services.{static_token}
use merger.Settings.Fails.{OfEnvironment, FailsOnly, roles_agree, in_entry-none, env_name-solid}

module _ (sha256 : Str → Str) (lookup_env : Str → Option Str) where
  -- A round goes through with these sets, or the environment ends it.
  abbrev Passes : List Str → List Str → Result StaticError (StaticCredential × Taken) → Type 0
  Passes subjects environments (ok (c, next)) =
      (next.subjects ≡ subjects) × (next.environments ≡ environments)
  Passes subjects environments (err e) = OfEnvironment e

  credential_of-Passes :
      (subject token_env : Str) (roles : List Role) (taken : Taken) (o : Option Str)
      → Passes taken.subjects taken.environments
          (credential_of sha256 subject token_env roles taken o)
  unfolding credential_of
  credential_of-Passes subject token_env roles taken none = tt
  credential_of-Passes subject token_env roles taken (some t) = ground arith

  first_checks :
      (index : ℕ) (subjects environments : List Str) (t : AccessTokenConfig)
      (ts : List AccessTokenConfig)
      → validate_access_tokens index subjects environments (t ∷ ts) ≡ none
      → ((trim_space t.subject == []) ≡ false)
        × (member (to_lower (trim_space t.subject)) subjects ≡ false)
        × (valid_environment_name (trim_space t.token_env) ≡ true)
        × (member (trim_space t.token_env) environments ≡ false)
        × (validate_role_set t.roles ≡ none)
        × (validate_access_tokens
              (suc index)
              (to_lower (trim_space t.subject) ∷ subjects)
              (trim_space t.token_env ∷ environments)
              ts
            ≡ none)
  unfolding validate_access_tokens
  first_checks index subjects environments t ts h = ground (
    arith,
    in_entry-none index (validate_role_set t.roles),
    first_error-none (in_entry index (validate_role_set t.roles)) (
        validate_access_tokens (suc index) (to_lower (trim_space t.subject) ∷ subjects)
          (trim_space t.token_env ∷ environments) ts),
  )

  take_entry-Passes :
      (index : ℕ) (t : AccessTokenConfig) (taken : Taken)
      → (trim_space t.subject == []) ≡ false
      → member (to_lower (trim_space t.subject)) taken.subjects ≡ false
      → (trim_space t.token_env == []) ≡ false
      → member (trim_space t.token_env) taken.environments ≡ false
      → validate_role_set t.roles ≡ none
      → Passes
          (to_lower (trim_space t.subject) ∷ taken.subjects)
          (trim_space t.token_env ∷ taken.environments)
          (take_entry sha256 lookup_env index (static_token t) taken)
  unfolding take_entry
  take_entry-Passes index t taken a b c d r =
      rw (a, b, c, d, roles_agree t.roles r)
        (credential_of-Passes (trim_space t.subject) (trim_space t.token_env) t.roles
          (record taken {
            subjects = to_lower (trim_space t.subject) ∷ taken.subjects;
            environments = trim_space t.token_env ∷ taken.environments;
          })
          (lookup_env (trim_space t.token_env)))

  then_entries :
      (index : ℕ) (ts : List AccessTokenConfig) (subjects environments : List Str)
      (r : Result StaticError (StaticCredential × Taken))
      → Passes subjects environments r
      → ((next : Taken)
          → next.subjects ≡ subjects
          → next.environments ≡ environments
          → FailsOnly OfEnvironment
              (take_entries sha256 lookup_env (suc index) (map static_token ts) next))
      → FailsOnly OfEnvironment (
          r >>= (λ (c, next).
            take_entries sha256 lookup_env (suc index) (map static_token ts) next
            >>= (λ cs. ok (c ∷ cs))))
  then_entries index ts subjects environments (err e) p rest = p
  then_entries index ts subjects environments (ok (c, next)) (s, e) rest =
      kept (take_entries sha256 lookup_env (suc index) (map static_token ts) next) (rest next s e)
    where
      kept :
          (r : Result StaticError (List StaticCredential))
          → FailsOnly OfEnvironment r
          → FailsOnly OfEnvironment (r >>= (λ cs. ok (c ∷ cs)))
      kept (ok cs) h = tt
      kept (err e) h = h

  take_entries-OfEnvironment :
      (index : ℕ) (ts : List AccessTokenConfig) (taken : Taken)
      → validate_access_tokens index taken.subjects taken.environments ts ≡ none
      → FailsOnly OfEnvironment (take_entries sha256 lookup_env index (map static_token ts) taken)
  unfolding take_entries
  take_entries-OfEnvironment index [] taken h = tt
  take_entries-OfEnvironment index (t ∷ ts) taken h =
      let (a, b, c, d, r, rest) = first_checks index taken.subjects taken.environments t ts h in
      then_entries index ts (to_lower (trim_space t.subject) ∷ taken.subjects)
        (trim_space t.token_env ∷ taken.environments)
        (take_entry sha256 lookup_env index (static_token t) taken)
        (take_entry-Passes index t taken a b (env_name-solid (trim_space t.token_env) c) d r)
        (λ next s e. take_entries-OfEnvironment (suc index) ts next (rw (s, e) rest))

  pub new_static-OfEnvironment :
      (ts : List AccessTokenConfig)
      → is_empty ts ≡ false
      → validate_access_tokens 0 [] [] ts ≡ none
      → FailsOnly OfEnvironment (new_static_authenticator sha256 lookup_env (map static_token ts))
  unfolding new_static_authenticator
  new_static-OfEnvironment [] n h = cc
  new_static-OfEnvironment (t ∷ ts) n h = take_entries-OfEnvironment 0 (t ∷ ts) nothing_taken h
