-- ===== src/Access/Claims.antt =====
-- internal/access/jwt_authenticator.go: what is read from a token. The cryptography, the base64 and
-- the JSON decoder are parameters.
use merger.Prelude.{
  ℕ, ℤ, Bool, true, false, ◌||◌, List, [], ◌∷◌, ◌++◌, Option, none, some, ◌==◌, any, if◌then◌else◌,
  Result, ok, err, Dict, lookup,
}
use merger.Text.{Str, str_key, lit, trim_space, split, fields, is_blank, contains, non_empty}
use merger.Access.{Role, role_key, AccessError}
use merger.Access.Roles.{RolesError}
use mathlib.Core.List.{map}

-- A value of the decoded claims. The decoder keeps numbers as they are written: `number none` is
-- one that Int64 refuses; `float` is a float64, cut to an integer.
pub data Item : Type 0 where
  text : Str → Item
  other : Item

pub data Claim : Type 0 where
  nil : Claim
  text : Str → Claim
  number : Option ℤ → Claim
  float : ℤ → Claim
  list : List Item → Claim
  other : Claim

pub record ClaimBinding : Type 0 where
  pub claim_value : Str
  pub roles : List Role

pub record JwtConfig : Type 0 where
  pub algorithm : Str
  pub issuer : Str
  pub audience : Str
  pub subject_claim : Str
  pub roles_claim : Str
  pub secret_env : Str
  pub public_key_path : Str
  pub role_bindings : List ClaimBinding

pub data JwtError : Type 0 where
  unsupported_algorithm : Str → JwtError
  empty_issuer empty_audience no_binding : JwtError
  empty_claim_value : ℕ → JwtError
  duplicate_claim_value : Str → JwtError
  bad_roles : ℕ → RolesError → JwtError
  empty_secret_env empty_key_path : JwtError
  secret_unset : Str → JwtError
  unreadable_key not_rsa no_key_found : JwtError

-- A block of a PEM file, and what the x509 parsers make of its bytes.
pub record PemBlock : Type 0 where
  pub kind : Str
  pub bytes : Str

-- The code of other parties. `pem_blocks` are the blocks that repeated calls of pem.Decode yield;
-- the parsers give `none` for an error, and `some none` for a key that is not RSA; `header_alg` is the
-- field `alg` of the decoded header, or `none` if the JSON is not one.
pub record Crypto (Key : Type 0) : Type 0 where
  pub lookup_env : Str → Option Str
  pub read_file : Str → Option Str
  pub pem_blocks : Str → List PemBlock
  pub parse_pkix : Str → Option (Option Key)
  pub parse_pkcs1 : Str → Option Key
  pub parse_certificate : Str → Option (Option Key)
  pub hmac_sha256 : Str → Str → Str
  pub verify_rsa : Key → Str → Str → Bool
  pub decode_base64 : Str → Option Str
  pub header_alg : Str → Option Str
  pub decode_claims : Str → Option (Dict Str Claim)

pub data Verifier (Key : Type 0) : Type 0 where
  hmac : Str → Verifier Key
  rsa : Key → Verifier Key

pub record JwtAuthenticator (Key : Type 0) : Type 0 where
  pub algorithm : Str
  pub issuer : Str
  pub audience : Str
  pub subject_claim : Str
  pub roles_claim : Str
  pub bindings : Dict Str (List Role)
  pub verifier : Verifier Key

-- A claim that is missing is nil.
abbrev or_nil : Option Claim → Claim
or_nil none = Claim.nil
or_nil (some c) = c

unfoldable pub claim : Str → Dict Str Claim → Claim
claim name claims = or_nil (lookup name claims)

abbrev pub or_default : Str → Str → Str
or_default s d = if s == [] then d else s

unfoldable pub string_claim : Claim → Option Str
string_claim (Claim.text s) = some s
string_claim _ = none

abbrev pub is_text : Str → Item → Bool
is_text s (Item.text t) = t == s
is_text s Item.other = false

unfoldable pub audience_matches : Claim → Str → Bool
audience_matches (Claim.text s) audience = s == audience
audience_matches (Claim.list items) audience = any (is_text audience) items
audience_matches _ audience = false

-- Seconds since the epoch.
unfoldable pub numeric_date : Claim → Option ℤ
numeric_date (Claim.number n) = n
numeric_date (Claim.float n) = some n
numeric_date _ = none

unfoldable pub split_claim_string : Str → List Str
split_claim_string value =
    if contains value (lit ",") then non_empty (map trim_space (split b',' value)) else fields value

abbrev cons_item : Item → Option (List Str) → Option (List Str)
cons_item (Item.text s) (some values) = some (trim_space s ∷ values)
cons_item _ _ = none

item_values : List Item → Option (List Str)
item_values [] = some []
item_values (item ∷ items) = cons_item item (item_values items)

unfoldable pub claim_values : Claim → Option (List Str)
unfolding item_values split_claim_string
claim_values Claim.nil = some []
claim_values (Claim.text s) = some (split_claim_string s)
claim_values (Claim.list items) = item_values items
claim_values _ = none

unfoldable pub append_bound_roles : List Role → List Role → List Role
append_bound_roles current [] = current
append_bound_roles current (role ∷ bound) =
    append_bound_roles (if any (λ r. r == role) current then current else current ++ role ∷ [])
      bound

abbrev pub bound_to : Option (List Role) → List Role
bound_to none = []
bound_to (some roles) = roles

-- The loop of rolesFromClaims; the roles so far are those that it has seen.
unfoldable pub bind_values : Dict Str (List Role) → List Role → List Str → List Role
unfolding append_bound_roles
bind_values bindings roles [] = roles
bind_values bindings roles (value ∷ values) =
    bind_values bindings (append_bound_roles roles (bound_to (lookup value bindings))) values

abbrev three : Str → Str → Str → Result AccessError (Str × Str × Str)
three a b c =
    if is_blank a || (is_blank b || is_blank c)
    then err AccessError.unauthenticated
    else ok (a, b, c)

abbrev three_parts : List Str → Result AccessError (Str × Str × Str)
three_parts (a ∷ (b ∷ (c ∷ []))) = three a b c
three_parts _ = err AccessError.unauthenticated

unfoldable pub split_jwt : Str → Result AccessError (Str × Str × Str)
split_jwt token = three_parts (split b'.' token)

abbrev pub or_unauthenticated {ℓ} : {A : Type ℓ} → Option A → Result AccessError A
or_unauthenticated none = err AccessError.unauthenticated
or_unauthenticated (some a) = ok a

abbrev pub unless_failed {ℓ} : {A : Type ℓ} → Bool → Result AccessError A → Result AccessError A
unless_failed true next = next
unless_failed false next = err AccessError.unauthenticated
