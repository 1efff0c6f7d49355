-- ===== src/Access/Static.antt =====
-- internal/access/authenticator.go: principals by static tokens. The environment and SHA-256 are
-- parameters.
use merger.Prelude.{
  ℕ, zero, suc, Bool, ◌||◌, not, List, [], ◌∷◌, Option, none, some, ◌==◌, any, if◌then◌else◌,
  Result, ok, err, ◌>>=◌,
}
use merger.Text.{Str, str_key, trim_space, to_lower, has_space}
use merger.Access.{Role, Principal, AccessError}
use merger.Access.Roles.{RolesError, validated_roles, bearer_token}

pub record StaticToken : Type 0 where
  pub subject : Str
  pub token_env : Str
  pub roles : List Role

pub record StaticCredential : Type 0 where
  pub digest : Str
  pub principal : Principal

pub data StaticError : Type 0 where
  no_tokens : StaticError
  empty_subject empty_env : ℕ → StaticError
  duplicate_subject duplicate_env : Str → StaticError
  bad_roles : ℕ → RolesError → StaticError
  env_unset env_space duplicate_token : Str → StaticError

-- The sets that the loop of NewStaticTokenAuthenticator fills.
pub record Taken : Type 0 where
  pub subjects : List Str
  pub environments : List Str
  pub digests : List Str

abbrev pub nothing_taken : Taken
nothing_taken = record { subjects = []; environments = []; digests = [] }

abbrev pub member : Str → List Str → Bool
member s set = any (λ x. x == s) set

-- Every digest is compared; the last match wins, `zero` is none.
unfoldable pub match_credential : Str → ℕ → ℕ → List StaticCredential → ℕ
match_credential candidate index found [] = found
match_credential candidate index found (c ∷ cs) =
    match_credential candidate (suc index) (if candidate == c.digest then suc index else found) cs

abbrev pub credential_at : List StaticCredential → ℕ → Option StaticCredential
credential_at [] i = none
credential_at (c ∷ cs) zero = some c
credential_at (c ∷ cs) (suc i) = credential_at cs i

-- `a.credentials[match-1]`; an index out of range panics.
abbrev pub indexed : Option StaticCredential → Result AccessError Principal
indexed none = err AccessError.panicked
indexed (some c) = ok c.principal

abbrev pub matched : List StaticCredential → ℕ → Result AccessError Principal
matched cs zero = err AccessError.unauthenticated
matched cs (suc i) = indexed (credential_at cs i)

module _ (sha256 : Str → Str) where
  -- The part of the round that reads the environment.
  unfoldable pub credential_of :
      Str → Str → List Role → Taken → Option Str → Result StaticError (StaticCredential × Taken)
  unfolding has_space
  credential_of subject token_env roles taken none = err (StaticError.env_unset token_env)
  credential_of subject token_env roles taken (some token) =
      if token == []
      then err (StaticError.env_unset token_env)
      else if not (trim_space token == token) || has_space token
      then err (StaticError.env_space token_env)
      else if member (sha256 token) taken.digests
      then err (StaticError.duplicate_token token_env)
      else ok (
        record { digest = sha256 token; principal = record { subject = subject; roles = roles } },
        record taken { digests = sha256 token ∷ taken.digests },
      )

  unfoldable pub static_authenticate : List StaticCredential → Str → Result AccessError Principal
  unfolding match_credential bearer_token
  static_authenticate cs authorization =
      bearer_token authorization >>= (λ token. matched cs (match_credential (sha256 token) 0 0 cs))

module _ (sha256 : Str → Str) (lookup_env : Str → Option Str) where
  abbrev pub with_roles :
      ℕ
      → Str
      → Str
      → Taken
      → Result RolesError (List Role)
      → Result StaticError (StaticCredential × Taken)
  with_roles index subject token_env taken (err e) = err (StaticError.bad_roles index e)
  with_roles index subject token_env taken (ok roles) =
      credential_of sha256 subject token_env roles taken (lookup_env token_env)

  -- One round of the loop.
  unfoldable pub take_entry :
      ℕ → StaticToken → Taken → Result StaticError (StaticCredential × Taken)
  unfolding credential_of to_lower trim_space validated_roles
  take_entry index entry taken =
      let subject = trim_space entry.subject in
      let token_env = trim_space entry.token_env in
      if subject == []
      then err (StaticError.empty_subject index)
      else if member (to_lower subject) taken.subjects
      then err (StaticError.duplicate_subject subject)
      else if token_env == []
      then err (StaticError.empty_env index)
      else if member token_env taken.environments
      then err (StaticError.duplicate_env token_env)
      else with_roles index subject token_env
          (record taken {
            subjects = to_lower subject ∷ taken.subjects;
            environments = token_env ∷ taken.environments;
          })
          (validated_roles entry.roles)

  unfoldable pub take_entries :
      ℕ → List StaticToken → Taken → Result StaticError (List StaticCredential)
  unfolding take_entry
  take_entries index [] taken = ok []
  take_entries index (entry ∷ entries) taken =
      take_entry index entry taken
      >>= (λ (c, next). take_entries (suc index) entries next >>= (λ cs. ok (c ∷ cs)))

  -- NewStaticTokenAuthenticator
  unfoldable pub new_static_authenticator :
      List StaticToken → Result StaticError (List StaticCredential)
  unfolding take_entries
  new_static_authenticator [] = err StaticError.no_tokens
  new_static_authenticator (entry ∷ entries) = take_entries 0 (entry ∷ entries) nothing_taken
