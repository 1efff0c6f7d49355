-- ===== src/Tests/AuthRuns.antt =====
-- Runs of the authenticators.
use merger.Prelude.{
  ◌≡◌, ◌↔◌, refl, ℕ, ℤ, pos, Bool, true, List, [], ◌∷◌, Option, none, some, Result, ok, Dict, ◌==◌,
  if◌then◌else◌,
}
use merger.Text.{Str, str_key, lit}
use merger.Access.{Role, Principal}
use merger.Access.Roles.{bearer_token}
use merger.Access.Static.{
  StaticToken, StaticCredential, new_static_authenticator, static_authenticate,
}
use merger.Access.Issued.{principal_of}
use merger.Access.Holder.{
  IsHolder, bearer_header, static_authenticate_iff, static_authenticate-bearer,
}
use merger.Access.Claims.{Claim, Crypto, Verifier, JwtAuthenticator, split_jwt}
use merger.Access.Jwt.{jwt_authenticate}
use merger.Access.Signed.{IsTokenFor, jwt_authenticate-IsTokenFor}

-- A stand-in for the digest, and an environment with one token.
abbrev pub digest : Str → Str
digest s = b'#' ∷ s

abbrev pub environment : Str → Option Str
environment name = if name == lit "CI_TOKEN" then some (lit "s3cret") else none

abbrev pub ci_entry : StaticToken
ci_entry = record {
  subject = lit " ci ";
  token_env = lit "CI_TOKEN";
  roles = Role.evidence_writer ∷ [];
}

abbrev pub ci_credential : StaticCredential
ci_credential = record {
  digest = digest (lit "s3cret");
  principal = record { subject = lit "ci"; roles = Role.evidence_writer ∷ [] };
}

ci_made : new_static_authenticator digest environment (ci_entry ∷ []) ≡ ok (ci_credential ∷ [])
unfolding new_static_authenticator merger.Text.Str-discrete lit
ci_made = refl

static_authenticate_iff_example :
    (static_authenticate digest (ci_credential ∷ []) (lit "bearer s3cret")
      ≡ ok (principal_of ci_entry))
    ↔ IsHolder digest environment (ci_entry ∷ []) (lit "bearer s3cret") (principal_of ci_entry)
static_authenticate_iff_example =
    static_authenticate_iff digest environment (ci_entry ∷ []) (ci_credential ∷ []) ci_made
      (lit "bearer s3cret") (principal_of ci_entry)

ci_token_set : environment (merger.Text.trim_space ci_entry.token_env) ≡ some (lit "s3cret")
unfolding merger.Text.trim_space merger.Text.Str-discrete lit
ci_token_set = refl

static_authenticate-bearer_example :
    static_authenticate digest (ci_credential ∷ []) (bearer_header (lit "s3cret"))
    ≡ ok (principal_of ci_entry)
static_authenticate-bearer_example =
    static_authenticate-bearer digest environment (ci_entry ∷ []) (ci_credential ∷ []) 0 ci_entry
      (lit "s3cret") ci_made refl ci_token_set

-- Claims that hold from 10 to 20.
abbrev claims : Dict Str Claim
claims =
    (lit "iss", Claim.text (lit "idp"))
    ∷ (lit "aud", Claim.text (lit "merger"))
    ∷ (lit "exp", Claim.number (some (pos 20)))
    ∷ (lit "nbf", Claim.number (some (pos 10)))
    ∷ (lit "sub", Claim.text (lit "dana"))
    ∷ (lit "roles", Claim.text (lit "ops,dev"))
    ∷ []

-- Stand-ins for the code of other parties: nothing is encoded, and the key is the signature.
abbrev pub plain : Crypto Str
plain = record {
  lookup_env = environment;
  read_file = λ path. none;
  pem_blocks = λ raw. [];
  parse_pkix = λ raw. none;
  parse_pkcs1 = λ raw. none;
  parse_certificate = λ raw. none;
  hmac_sha256 = λ secret input. secret;
  verify_rsa = λ key input signature. key == signature;
  decode_base64 = some;
  header_alg = λ raw. some (lit "hs256");
  decode_claims = λ raw. some claims;
}

abbrev idp : JwtAuthenticator Str
idp = record {
  algorithm = lit "HS256";
  issuer = lit "idp";
  audience = lit "merger";
  subject_claim = lit "sub";
  roles_claim = lit "roles";
  bindings = (lit "ops", Role.admin ∷ []) ∷ [];
  verifier = Verifier.hmac (lit "key");
}

abbrev dana : Principal
dana = record { subject = lit "dana"; roles = Role.admin ∷ [] }

dana_authenticated : jwt_authenticate plain (pos 15) idp (lit "Bearer h.b.key") ≡ ok dana
unfolding jwt_authenticate merger.Text.split merger.Text.is_blank merger.Prelude.lookup
    merger.Text.contains merger.Text.non_empty
dana_authenticated = refl

jwt_authenticate-IsTokenFor_example :
    (token : Str) × (header : Str) × (body : Str) × (signature : Str) × (bearer_token
        (lit "Bearer h.b.key")
      ≡ ok token)
    × (split_jwt token ≡ ok (header, body, signature))
    × IsTokenFor plain (pos 15) idp dana header body signature
jwt_authenticate-IsTokenFor_example =
    jwt_authenticate-IsTokenFor plain (pos 15) idp (lit "Bearer h.b.key") dana dana_authenticated
