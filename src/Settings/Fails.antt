-- ===== src/Settings/Fails.antt =====
-- Results that fail for given reasons only, and what the checks of roles and names have in common.
use merger.Prelude.{
  ◌≡◌, refl, ℕ, true, false, List, [], ◌∷◌, Option, none, some, ◌==◌, Result, ok, err, arith,
}
use merger.Text.{Str, str_key}
use merger.Access.{Role}
use merger.Access.Roles.{RolesError, validated_roles}
use merger.Access.Static.{StaticError}
use merger.Access.Claims.{JwtError}
use merger.Settings.AccessRules.{validate_role_set, in_entry, valid_environment_name}

-- What the environment alone can bring about.
abbrev pub OfEnvironment : StaticError → Type 0
OfEnvironment (StaticError.env_unset s) = Unit
OfEnvironment (StaticError.env_space s) = Unit
OfEnvironment (StaticError.duplicate_token s) = Unit
OfEnvironment _ = ⊥

-- What the secret, the key file and the keys alone can bring about.
abbrev pub OfKey : JwtError → Type 0
OfKey (JwtError.secret_unset s) = Unit
OfKey JwtError.unreadable_key = Unit
OfKey JwtError.not_rsa = Unit
OfKey JwtError.no_key_found = Unit
OfKey _ = ⊥

abbrev pub FailsOnly {ℓ κ} : {E : Type 0} {A : Type ℓ} → (E → Type κ) → Result E A → Type κ
FailsOnly P (ok a) = Unit
FailsOnly P (err e) = P e

pub roles_agree :
    (roles : List Role) → validate_role_set roles ≡ none → validated_roles roles ≡ ok roles
unfolding validate_role_set validated_roles
roles_agree [] h = cc
roles_agree (r ∷ roles) h = rw h refl

pub in_entry-none : (index : ℕ) (o : Option RolesError) → in_entry index o ≡ none → o ≡ none
in_entry-none index none h = refl
in_entry-none index (some e) h = cc

pub env_name-solid : (s : Str) → valid_environment_name s ≡ true → (s == []) ≡ false
unfolding valid_environment_name
env_name-solid [] h = cc
env_name-solid (c ∷ s) h = ground arith
