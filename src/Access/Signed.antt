-- ===== src/Access/Signed.antt =====
-- What a token must be for the authenticators to accept it.
use merger.Prelude.{
  ◌≡◌, refl, ap, ◌∙◌, ℤ, Bool, true, false, List, Option, none, some, Result, ok, bind-ok, Dict,
  arith, any, eq→≡,
}
use merger.Text.{Str, str_key, lit, trim_space, equal_fold}
use merger.Access.{Role, role_key, Principal, AccessError}
use merger.Access.Roles.{bearer_token}
use merger.Access.Claims.{
  Claim, Crypto, JwtAuthenticator, claim, string_claim, audience_matches, numeric_date,
  claim_values, split_jwt, unless_failed, or_unauthenticated,
}
use merger.Access.Granted.{
  holds, binds, IsSubject, subject_from_claims-IsSubject, roles_from_claims-binds,
}
use merger.Access.Jwt.{
  verify, header_matches, signing_input, verified_claims, is_before, is_issuer, validate_claims,
  subject_from_claims, roles_from_claims, principal_of, jwt_authenticate,
}

unless_failed-ok {ℓ} :
    {A : Type ℓ} (b : Bool) (next : Result AccessError A) {a : A}
    → unless_failed b next ≡ ok a
    → (b ≡ true) × (next ≡ ok a)
unless_failed-ok true next h = (refl, h)
unless_failed-ok false next h = cc

or_unauthenticated-ok {ℓ} :
    {A : Type ℓ} (o : Option A) {a : A} → or_unauthenticated o ≡ ok a → o ≡ some a
or_unauthenticated-ok (some b) h = cc
or_unauthenticated-ok none h = cc

module _ {Key : Type 0} (x : Crypto Key) (now : ℤ) (a : JwtAuthenticator Key) where
  -- The claims hold for the authenticator at this time.
  pub record IsCurrent (claims : Dict Str Claim) : Type 0 where
    pub issuer : claim (lit "iss") claims ≡ Claim.text a.issuer
    pub audience : audience_matches (claim (lit "aud") claims) a.audience ≡ true
    pub unexpired : is_before now (numeric_date (claim (lit "exp") claims)) ≡ true
    pub begun : is_before now (numeric_date (claim (lit "nbf") claims)) ≡ false

  -- A token for a principal: its three parts, the signature over the first two under the key of the
  -- authenticator, the algorithm that the header names, and what the claims say.
  pub record IsTokenFor (p : Principal) (header body signature : Str) : Type 0 where
    pub json : Str
    pub alg : Str
    pub sig : Str
    pub claims : Dict Str Claim
    pub raw : Str
    pub head : x.decode_base64 header ≡ some json
    pub named : x.header_alg json ≡ some alg
    pub same_alg : equal_fold (trim_space alg) a.algorithm ≡ true
    pub decoded : x.decode_base64 signature ≡ some sig
    pub signed : verify x a.verifier (signing_input header body) sig ≡ true
    pub read : x.decode_base64 body ≡ some raw
    pub parsed : x.decode_claims raw ≡ some claims
    pub current : IsCurrent claims
    pub values : List Str
    pub subject : IsSubject a.subject_claim claims p.subject
    pub listed : claim_values (claim a.roles_claim claims) ≡ some values
    pub granted : (role : Role) → holds role p.roles ≡ any (λ v. binds a.bindings role v) values

  issuer-text : (c : Claim) → is_issuer a.issuer (string_claim c) ≡ true → c ≡ Claim.text a.issuer
  unfolding string_claim
  issuer-text (Claim.text s) h = ap Claim.text (eq→≡ s a.issuer h)
  issuer-text Claim.nil h = cc
  issuer-text (Claim.number n) h = cc
  issuer-text (Claim.float n) h = cc
  issuer-text (Claim.list items) h = cc
  issuer-text Claim.other h = cc

  validate_claims-IsCurrent :
      (claims : Dict Str Claim) → validate_claims now a claims ≡ true → IsCurrent claims
  unfolding validate_claims
  validate_claims-IsCurrent claims h = record {
    issuer = issuer-text (claim (lit "iss") claims) (ground arith);
    audience = ground arith;
    unexpired = ground arith;
    begun = ground arith;
  }

  matches-alg :
      (o : Option Str)
      → header_matches a.algorithm o ≡ true
      → (alg : Str) × (o ≡ some alg) × (equal_fold (trim_space alg) a.algorithm ≡ true)
  unfolding header_matches
  matches-alg none h = cc
  matches-alg (some alg) h = (alg, refl, h)

  record IsVerified (header body signature : Str) (claims : Dict Str Claim) : Type 0 where
    json : Str
    alg : Str
    sig : Str
    raw : Str
    head : x.decode_base64 header ≡ some json
    named : x.header_alg json ≡ some alg
    same_alg : equal_fold (trim_space alg) a.algorithm ≡ true
    decoded : x.decode_base64 signature ≡ some sig
    signed : verify x a.verifier (signing_input header body) sig ≡ true
    read : x.decode_base64 body ≡ some raw
    parsed : x.decode_claims raw ≡ some claims

  verified_claims-IsVerified :
      (header body signature : Str) (claims : Dict Str Claim)
      → verified_claims x a header body signature ≡ ok claims
      → IsVerified header body signature claims
  unfolding verified_claims
  verified_claims-IsVerified header body signature claims h =
      let (sig, d, h1) = bind-ok (or_unauthenticated (x.decode_base64 signature)) _ h in
      let (json, e, h2) = bind-ok (or_unauthenticated (x.decode_base64 header)) _ h1 in
      let (m, h3) = unless_failed-ok (header_matches a.algorithm (x.header_alg json)) _ h2 in
      let (v, h4) = unless_failed-ok (verify x a.verifier (signing_input header body) sig) _ h3 in
      let (raw, r, h5) = bind-ok (or_unauthenticated (x.decode_base64 body)) _ h4 in
      let (alg, n, s) = matches-alg (x.header_alg json) m in
      record {
        json = json;
        alg = alg;
        sig = sig;
        raw = raw;
        head = or_unauthenticated-ok _ e;
        named = n;
        same_alg = s;
        decoded = or_unauthenticated-ok _ d;
        signed = v;
        read = or_unauthenticated-ok _ r;
        parsed = or_unauthenticated-ok _ h5;
      }

  abbrev the_ok : Principal → Result AccessError Principal
  the_ok = ok

  principal_of-IsCurrent :
      (claims : Dict Str Claim) (p : Principal)
      → principal_of now a claims ≡ ok p
      → IsCurrent claims
        × (subject_from_claims a claims ≡ ok p.subject)
        × (roles_from_claims a claims ≡ ok p.roles)
  principal_of-IsCurrent claims p h =
      let (valid, h1) = unless_failed-ok (validate_claims now a claims) _ h in
      let (subject, s, h2) = bind-ok (subject_from_claims a claims) _ h1 in
      let (roles, r, h3) = bind-ok (roles_from_claims a claims) _ h2 in
      let same : record { subject = subject; roles = roles } ≡ p = cc in
      (
        validate_claims-IsCurrent claims valid,
        s ∙ ap (λ (q : Principal). ok q.subject) same,
        r ∙ ap (λ (q : Principal). ok q.roles) same,
      )

  -- Whoever is authenticated by a JWT holds a token of three parts, whose signature the key of the
  -- authenticator verifies over the first two, whose header names the configured algorithm, and
  -- whose claims name the issuer and the audience and are neither expired nor not yet valid; its
  -- subject is a claim that is not blank, trimmed, and it holds exactly the roles that the bindings
  -- give to the values of its roles claim.
  pub jwt_authenticate-IsTokenFor :
      (authorization : Str) (p : Principal)
      → jwt_authenticate x now a authorization ≡ ok p
      → (token : Str) × (header : Str) × (body : Str) × (signature : Str) × (bearer_token
            authorization
          ≡ ok token)
        × (split_jwt token ≡ ok (header, body, signature))
        × IsTokenFor p header body signature
  unfolding jwt_authenticate
  jwt_authenticate-IsTokenFor authorization p h =
      let (token, t, h1) = bind-ok (bearer_token authorization) _ h in
      let ((header, body, signature), s, h2) = bind-ok (split_jwt token) _ h1 in
      let (claims, c, h3) = bind-ok (verified_claims x a header body signature) _ h2 in
      let v = verified_claims-IsVerified header body signature claims c in
      let (current, subject, roles) = principal_of-IsCurrent claims p h3 in
      let (values, listed, granted) = roles_from_claims-binds a claims p.roles roles in
      (
        token,
        header,
        body,
        signature,
        t,
        s,
        record {
          json = v.json;
          alg = v.alg;
          sig = v.sig;
          claims = claims;
          raw = v.raw;
          head = v.head;
          named = v.named;
          same_alg = v.same_alg;
          decoded = v.decoded;
          signed = v.signed;
          read = v.read;
          parsed = v.parsed;
          current = current;
          values = values;
          subject = subject_from_claims-IsSubject a claims p.subject subject;
          listed = listed;
          granted = granted;
        },
      )
