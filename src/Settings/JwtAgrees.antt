-- ===== src/Settings/JwtAgrees.antt =====
-- A JWT configuration that passes the checks is one that the constructor accepts, as far as the
-- secret or the key can be had.
use merger.Prelude.{
  ◌≡◌, refl, ◌∙◌, ℕ, suc, false, not, ◌&&◌, List, [], ◌∷◌, Option, none, some, ◌==◌, Result, ok,
  err, ◌>>=◌, arith, Bool-cases, inl, inr, map, Dict, lookup, put, lookup-put, is_empty,
  first_error-none,
}
use merger.Text.{Str, str_key, lit, trim_space, to_upper, is_blank}
use merger.Access.{Role}
use merger.Access.Static.{member}
use merger.Access.Claims.{PemBlock, JwtError, Crypto, Verifier}
use merger.Access.Jwt.{
  algorithm_of, rsa_key, read_key, hmac_verifier, rsa_verifier, built, parse_rsa_public_key,
  add_binding, add_bindings, new_jwt_verifier, new_jwt_authenticator,
}
use merger.Settings.Model.{AccessJwtBindingConfig, AccessJwtConfig}
use merger.Settings.AccessRules.{
  validate_role_set, in_entry, validate_jwt_algorithm, validate_jwt_claims_config,
  validate_jwt_access, validate_jwt_bindings,
}
use merger.Settings.Services.{claim_binding, jwt_config}
use merger.Settings.Fails.{OfKey, FailsOnly, roles_agree, in_entry-none, env_name-solid}

abbrev Knows : Dict Str (List Role) → List Str → Type 0
Knows bindings seen = (v : Str) → member v seen ≡ false → lookup v bindings ≡ none

Knows-put :
    (bindings : Dict Str (List Role)) (seen : List Str) (value : Str) (roles : List Role)
    → Knows bindings seen
    → Knows (put value roles bindings) (value ∷ seen)
Knows-put bindings seen value roles k v h = lookup-put value v roles bindings ∙ ground (arith, k v)

binding_checks :
    (index : ℕ) (seen : List Str) (b : AccessJwtBindingConfig) (bs : List AccessJwtBindingConfig)
    → validate_jwt_bindings index seen (b ∷ bs) ≡ none
    → ((trim_space b.claim_value == []) ≡ false)
      × (member (trim_space b.claim_value) seen ≡ false)
      × (validate_role_set b.roles ≡ none)
      × (validate_jwt_bindings (suc index) (trim_space b.claim_value ∷ seen) bs ≡ none)
unfolding validate_jwt_bindings
binding_checks index seen b bs h = ground (
  arith,
  in_entry-none index (validate_role_set b.roles),
  first_error-none (in_entry index (validate_role_set b.roles))
      (validate_jwt_bindings (suc index) (trim_space b.claim_value ∷ seen) bs),
)

add_binding-put :
    (index : ℕ) (b : AccessJwtBindingConfig) (bindings : Dict Str (List Role))
    → (trim_space b.claim_value == []) ≡ false
    → lookup (trim_space b.claim_value) bindings ≡ none
    → validate_role_set b.roles ≡ none
    → add_binding index (claim_binding b) bindings
      ≡ ok (put (trim_space b.claim_value) b.roles bindings)
unfolding add_binding
add_binding-put index b bindings n l r = rw (n, l, roles_agree b.roles r) refl

add_bindings-ok :
    (index : ℕ) (seen : List Str) (bs : List AccessJwtBindingConfig)
    (bindings : Dict Str (List Role))
    → Knows bindings seen
    → validate_jwt_bindings index seen bs ≡ none
    → (all : Dict Str (List Role)) × (add_bindings index (map claim_binding bs) bindings ≡ ok all)
      × (is_empty all ≡ (is_empty bs && is_empty bindings))
unfolding add_bindings
add_bindings-ok index seen [] bindings k h = (bindings, refl, refl)
add_bindings-ok index seen (b ∷ bs) bindings k h =
    let (n, m, r, rest) = binding_checks index seen b bs h in
    let value = trim_space b.claim_value in
    let (all, e, s) =
      add_bindings-ok (suc index) (value ∷ seen) bs (put value b.roles bindings)
        (Knows-put bindings seen value b.roles k) rest in
    (all, rw (add_binding-put index b bindings n (k value m) r) e, s ∙ (unfold put in ground arith))

module _ {Key : Type 0} (x : Crypto Key) where
  rsa_key-OfKey : (o : Option (Option Key)) → FailsOnly OfKey (rsa_key x o)
  rsa_key-OfKey none = tt
  rsa_key-OfKey (some none) = tt
  rsa_key-OfKey (some (some k)) = tt

  read_key-OfKey : (o : Option Key) → FailsOnly OfKey (read_key x o)
  read_key-OfKey none = tt
  read_key-OfKey (some k) = tt

  parse-OfKey : (blocks : List PemBlock) → FailsOnly OfKey (parse_rsa_public_key x blocks)
  unfolding parse_rsa_public_key
  parse-OfKey [] = tt
  parse-OfKey (b ∷ bs) = elim (Bool-cases (b.kind == lit "PUBLIC KEY")) [
    | inl e ↦ rw e (rsa_key-OfKey (x.parse_pkix b.bytes))
    | inr n ↦ rw n (elim (Bool-cases (b.kind == lit "RSA PUBLIC KEY")) [
      | inl e ↦ rw e (read_key-OfKey (x.parse_pkcs1 b.bytes))
      | inr m ↦ rw m (elim (Bool-cases (b.kind == lit "CERTIFICATE")) [
        | inl e ↦ rw e (rsa_key-OfKey (x.parse_certificate b.bytes))
        | inr o ↦ rw o (parse-OfKey bs)
      ])
    ])
  ]

  then-OfKey {ℓ κ} :
      {A : Type ℓ} {B : Type κ} (r : Result JwtError A) (f : A → Result JwtError B)
      → FailsOnly OfKey r
      → ((a : A) → FailsOnly OfKey (f a))
      → FailsOnly OfKey (r >>= f)
  then-OfKey (ok a) f h k = k a
  then-OfKey (err e) f h k = h

  hmac_verifier-OfKey : (name : Str) (o : Option Str) → FailsOnly OfKey (hmac_verifier x name o)
  hmac_verifier-OfKey name none = tt
  hmac_verifier-OfKey name (some secret) = ground arith

  rsa_verifier-OfKey : (o : Option Str) → FailsOnly OfKey (rsa_verifier x o)
  rsa_verifier-OfKey none = tt
  rsa_verifier-OfKey (some raw) =
      then-OfKey (parse_rsa_public_key x (x.pem_blocks raw)) (λ key. ok (Verifier.rsa key))
        (parse-OfKey (x.pem_blocks raw)) (λ key. tt)

  new_jwt_verifier-OfKey :
      (cfg : AccessJwtConfig)
      → validate_jwt_algorithm cfg ≡ none
      → FailsOnly OfKey (new_jwt_verifier x (algorithm_of (jwt_config cfg)) (jwt_config cfg))
  unfolding new_jwt_verifier validate_jwt_algorithm is_blank
  new_jwt_verifier-OfKey cfg h =
      elim (Bool-cases (to_upper (trim_space cfg.algorithm) == lit "HS256")) [
        | inl e ↦
            (let solid = env_name-solid (trim_space cfg.secret_env) (ground arith) in
              rw (e, solid)
                (hmac_verifier-OfKey (trim_space cfg.secret_env)
                  (x.lookup_env (trim_space cfg.secret_env))))
        | inr n ↦ rw n (elim (Bool-cases (to_upper (trim_space cfg.algorithm) == lit "RS256")) [
          | inl e ↦
              (let path : (trim_space cfg.public_key_path == []) ≡ false = ground arith in
                rw (e, path) (rsa_verifier-OfKey (x.read_file (trim_space cfg.public_key_path))))
          | inr m ↦ absurd (ground arith)
        ])
      ]

  known_algorithm :
      (cfg : AccessJwtConfig)
      → validate_jwt_algorithm cfg ≡ none
      → (not (to_upper (trim_space cfg.algorithm) == lit "HS256")
          && not (to_upper (trim_space cfg.algorithm) == lit "RS256"))
        ≡ false
  unfolding validate_jwt_algorithm
  known_algorithm cfg h = ground arith

  claims_checks :
      (cfg : AccessJwtConfig)
      → validate_jwt_claims_config cfg ≡ none
      → ((trim_space cfg.issuer == []) ≡ false)
        × ((trim_space cfg.audience == []) ≡ false)
        × (is_empty cfg.role_bindings ≡ false)
  unfolding validate_jwt_claims_config is_blank
  claims_checks cfg h = ground arith

  pub new_jwt-OfKey :
      (cfg : AccessJwtConfig)
      → validate_jwt_access cfg ≡ none
      → FailsOnly OfKey (new_jwt_authenticator x (jwt_config cfg))
  unfolding validate_jwt_access new_jwt_authenticator
  new_jwt-OfKey cfg h =
      let (a, h1) = first_error-none (validate_jwt_algorithm cfg) _ h in
      let (c, b) = first_error-none (validate_jwt_claims_config cfg) _ h1 in
      let (issuer, audience, some_binding) = claims_checks cfg c in
      let (all, e, s) =
        add_bindings-ok 0 [] cfg.role_bindings [] (λ v m. unfold lookup in refl) b in
      let full : is_empty all ≡ false = s ∙ rw some_binding refl in
      rw (known_algorithm cfg a, issuer, audience, e, full)
        (then-OfKey (new_jwt_verifier x (algorithm_of (jwt_config cfg)) (jwt_config cfg))
          (λ v. built x (jwt_config cfg) all v) (new_jwt_verifier-OfKey cfg a) (λ v. tt))
