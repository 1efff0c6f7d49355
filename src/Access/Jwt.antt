-- ===== src/Access/Jwt.antt =====
-- internal/access/jwt_authenticator.go: the authenticator and its construction.
use merger.Prelude.{
  ℕ, suc, ℤ, Bool, false, not, ◌&&◌, List, [], ◌∷◌, ◌++◌, Option, none, some, ◌==◌, is_empty,
  if◌then◌else◌, Result, ok, err, ◌>>=◌, Dict, lookup, put,
}
use merger.Prelude.Int.{ltb_ℤ}
use merger.Text.{Str, str_key, lit, trim_space, to_upper, equal_fold}
use merger.Access.{Role, Principal, AccessError}
use merger.Access.Roles.{RolesError, validated_roles, bearer_token}
use merger.Access.Claims.{
  Claim, ClaimBinding, JwtConfig, JwtError, PemBlock, Crypto, Verifier, JwtAuthenticator, claim,
  or_default, string_claim, audience_matches, numeric_date, claim_values, bind_values, split_jwt,
  or_unauthenticated, unless_failed,
}

abbrev pub algorithm_of : JwtConfig → Str
algorithm_of cfg = to_upper (trim_space cfg.algorithm)

abbrev bind_roles :
    ℕ
    → Str
    → Dict Str (List Role)
    → Result RolesError (List Role)
    → Result JwtError (Dict Str (List Role))
bind_roles index value bindings (err e) = err (JwtError.bad_roles index e)
bind_roles index value bindings (ok roles) = ok (put value roles bindings)

-- One round of the loop over the role bindings.
unfoldable pub add_binding :
    ℕ → ClaimBinding → Dict Str (List Role) → Result JwtError (Dict Str (List Role))
unfolding trim_space lookup put validated_roles
add_binding index b bindings =
    let value = trim_space b.claim_value in
    if value == [] then err (JwtError.empty_claim_value index) else elim (lookup value bindings) [
      | some _ ↦ err (JwtError.duplicate_claim_value value)
      | none ↦ bind_roles index value bindings (validated_roles b.roles)
    ]

unfoldable pub add_bindings :
    ℕ → List ClaimBinding → Dict Str (List Role) → Result JwtError (Dict Str (List Role))
unfolding add_binding
add_bindings index [] bindings = ok bindings
add_bindings index (b ∷ bs) bindings =
    add_binding index b bindings >>= (λ next. add_bindings (suc index) bs next)

unfoldable pub header_matches : Str → Option Str → Bool
unfolding trim_space equal_fold
header_matches algorithm none = false
header_matches algorithm (some alg) = equal_fold (trim_space alg) algorithm

-- `header ++ "." ++ claims` is what was signed.
abbrev pub signing_input : Str → Str → Str
signing_input header claims = header ++ b'.' ∷ claims

abbrev pub is_before : ℤ → Option ℤ → Bool
is_before now none = false
is_before now (some t) = ltb_ℤ now t

abbrev pub is_issuer : Str → Option Str → Bool
is_issuer issuer none = false
is_issuer issuer (some s) = s == issuer

abbrev pub named : Option Str → Result AccessError Str
named none = err AccessError.unauthenticated
named (some s) =
    let subject = trim_space s in
    if subject == [] then err AccessError.unauthenticated else ok subject

module _ {Key : Type 0} where
  -- `now` is the time in whole seconds: it is before a date in seconds exactly when the time is.
  unfoldable pub validate_claims : ℤ → JwtAuthenticator Key → Dict Str Claim → Bool
  unfolding lit claim string_claim audience_matches numeric_date
  validate_claims now a claims =
      is_issuer a.issuer (string_claim (claim (lit "iss") claims))
      && (audience_matches (claim (lit "aud") claims) a.audience
          && (is_before now (numeric_date (claim (lit "exp") claims))
              && not (is_before now (numeric_date (claim (lit "nbf") claims)))))

  unfoldable pub subject_from_claims :
      JwtAuthenticator Key → Dict Str Claim → Result AccessError Str
  unfolding trim_space claim string_claim
  subject_from_claims a claims = named (string_claim (claim a.subject_claim claims))

  abbrev pub bound : JwtAuthenticator Key → Option (List Str) → Result AccessError (List Role)
  bound a none = err AccessError.unauthenticated
  bound a (some values) = ok (bind_values a.bindings [] values)

  unfoldable pub roles_from_claims :
      JwtAuthenticator Key → Dict Str Claim → Result AccessError (List Role)
  unfolding bind_values claim claim_values
  roles_from_claims a claims = bound a (claim_values (claim a.roles_claim claims))

  abbrev pub principal_of : ℤ → JwtAuthenticator Key → Dict Str Claim → Result AccessError Principal
  principal_of now a claims = unless_failed (validate_claims now a claims) (
      subject_from_claims a claims >>= (λ subject.
        roles_from_claims a claims >>= (λ roles. ok (record { subject = subject; roles = roles }))))

module _ {Key : Type 0} (x : Crypto Key) where
  abbrev pub rsa_key : Option (Option Key) → Result JwtError Key
  rsa_key none = err JwtError.unreadable_key
  rsa_key (some none) = err JwtError.not_rsa
  rsa_key (some (some key)) = ok key

  abbrev pub read_key : Option Key → Result JwtError Key
  read_key none = err JwtError.unreadable_key
  read_key (some key) = ok key

  -- The first block of a kind that holds a key decides; other blocks are passed over.
  unfoldable pub parse_rsa_public_key : List PemBlock → Result JwtError Key
  unfolding lit
  parse_rsa_public_key [] = err JwtError.no_key_found
  parse_rsa_public_key (block ∷ blocks) =
      let rest = parse_rsa_public_key blocks in
      if block.kind == lit "PUBLIC KEY"
      then rsa_key (x.parse_pkix block.bytes)
      else if block.kind == lit "RSA PUBLIC KEY"
      then read_key (x.parse_pkcs1 block.bytes)
      else if block.kind == lit "CERTIFICATE"
      then rsa_key (x.parse_certificate block.bytes)
      else rest

  abbrev pub hmac_verifier : Str → Option Str → Result JwtError (Verifier Key)
  hmac_verifier secret_env none = err (JwtError.secret_unset secret_env)
  hmac_verifier secret_env (some secret) =
      if secret == [] then err (JwtError.secret_unset secret_env) else ok (Verifier.hmac secret)

  abbrev pub rsa_verifier : Option Str → Result JwtError (Verifier Key)
  rsa_verifier none = err JwtError.unreadable_key
  rsa_verifier (some raw) =
      parse_rsa_public_key (x.pem_blocks raw) >>= (λ key. ok (Verifier.rsa key))

  unfoldable pub new_jwt_verifier : Str → JwtConfig → Result JwtError (Verifier Key)
  unfolding lit parse_rsa_public_key trim_space
  new_jwt_verifier algorithm cfg =
      let secret_env = trim_space cfg.secret_env in
      let path = trim_space cfg.public_key_path in
      if algorithm == lit "HS256"
      then (if secret_env == []
          then err JwtError.empty_secret_env
          else hmac_verifier secret_env (x.lookup_env secret_env))
      else if algorithm == lit "RS256"
      then (if path == [] then err JwtError.empty_key_path else rsa_verifier (x.read_file path))
      else err (JwtError.unsupported_algorithm algorithm)

  abbrev pub built :
      JwtConfig → Dict Str (List Role) → Verifier Key → Result JwtError (JwtAuthenticator Key)
  built cfg bindings verifier = ok (record {
    algorithm = algorithm_of cfg;
    issuer = trim_space cfg.issuer;
    audience = trim_space cfg.audience;
    subject_claim = or_default (trim_space cfg.subject_claim) (lit "sub");
    roles_claim = or_default (trim_space cfg.roles_claim) (lit "roles");
    bindings = bindings;
    verifier = verifier;
  })

  unfoldable pub new_jwt_authenticator : JwtConfig → Result JwtError (JwtAuthenticator Key)
  unfolding lit trim_space to_upper add_bindings new_jwt_verifier
  new_jwt_authenticator cfg =
      if not (algorithm_of cfg == lit "HS256") && not (algorithm_of cfg == lit "RS256")
      then err (JwtError.unsupported_algorithm cfg.algorithm)
      else if trim_space cfg.issuer == []
      then err JwtError.empty_issuer
      else if trim_space cfg.audience == []
      then err JwtError.empty_audience
      else add_bindings 0 cfg.role_bindings [] >>= (λ bindings.
        if is_empty bindings
        then err JwtError.no_binding
        else new_jwt_verifier (algorithm_of cfg) cfg >>= (λ v. built cfg bindings v))

  unfoldable pub verify : Verifier Key → Str → Str → Bool
  verify (Verifier.hmac secret) input signature = signature == x.hmac_sha256 secret input
  verify (Verifier.rsa key) input signature = x.verify_rsa key input signature

  unfoldable pub verified_claims :
      JwtAuthenticator Key → Str → Str → Str → Result AccessError (Dict Str Claim)
  unfolding verify header_matches
  verified_claims a header claims signature =
      or_unauthenticated (x.decode_base64 signature) >>= (λ sig.
        or_unauthenticated (x.decode_base64 header) >>= (λ json.
          unless_failed (header_matches a.algorithm (x.header_alg json)) (
            unless_failed (verify a.verifier (signing_input header claims) sig) (
              or_unauthenticated (x.decode_base64 claims)
              >>= (λ raw. or_unauthenticated (x.decode_claims raw))))))

  unfoldable pub jwt_authenticate : ℤ → JwtAuthenticator Key → Str → Result AccessError Principal
  unfolding bearer_token split_jwt verified_claims validate_claims subject_from_claims
      roles_from_claims
  jwt_authenticate now a authorization = bearer_token authorization >>= (λ token.
      split_jwt token >>= (λ (header, claims, signature).
        verified_claims a header claims signature >>= (λ c. principal_of now a c)))
