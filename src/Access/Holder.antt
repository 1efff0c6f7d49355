-- ===== src/Access/Holder.antt =====
-- Whom a static token authenticates, and that the bearer of a configured token is accepted.
use merger.Prelude.{
  ◌≡◌, refl, sym, ap, ◌∙◌, ◌↔◌, ℕ, suc, ◌+◌, false, List, [], ◌++◌, Option, none, some, ◌==◌, ok,
  bind-ok, arith, inl, inr,
}
use mathlib.Core.Path.{subst}
use merger.Text.{Str, str_key, lit, trim_space, has_space, is_space, cut}
use merger.Text.Laws.{trim_space_word, trim_space_ends, last_solid, equal_fold_refl}
use mathlib.Core.List.{reverse, reverse-append}
use merger.Access.{Principal}
use merger.Access.Roles.{bearer_token, token_of}
use merger.Access.Static.{
  StaticToken, StaticCredential, new_static_authenticator, match_credential, credential_at, indexed,
  matched, static_authenticate,
}
use merger.Access.Issued.{principal_of, entry_at, new-Issued}
use merger.Access.Credential.{
  match_credential-hit, match_credential-cases, entry_behind, word_behind,
}

module _ (sha256 : Str → Str) (lookup_env : Str → Option Str) where
  -- The header holds a bearer token with the digest of the token that the environment sets for an
  -- entry, and the principal is that of the entry.
  pub record IsHolder (entries : List StaticToken) (authorization : Str) (p : Principal)
      : Type 0 where
    pub token : Str
    pub secret : Str
    pub position : ℕ
    pub entry : StaticToken
    pub sent : bearer_token authorization ≡ ok token
    pub configured : entry_at entries position ≡ some entry
    pub set : lookup_env (trim_space entry.token_env) ≡ some secret
    pub same_digest : sha256 token ≡ sha256 secret
    pub principal : p ≡ principal_of entry

  module _ (entries : List StaticToken) (cs : List StaticCredential)
      (made : new_static_authenticator sha256 lookup_env entries ≡ ok cs) where
    indexed-ok :
        (o : Option StaticCredential) (p : Principal)
        → indexed o ≡ ok p
        → (c : StaticCredential) × (o ≡ some c) × (c.principal ≡ p)
    indexed-ok none p h = cc
    indexed-ok (some c) p h = (c, refl, cc)

    matched-IsHolder :
        (authorization token : Str) (p : Principal)
        → bearer_token authorization ≡ ok token
        → matched cs (match_credential (sha256 token) 0 0 cs) ≡ ok p
        → IsHolder entries authorization p
    matched-IsHolder authorization token p sent m =
        elim (match_credential-cases sha256 lookup_env (sha256 token) 0 0 cs) [
          | inl unmatched ↦ absurd (ground (arith, unmatched))
          | inr (i, c, at, same, hit) ↦
              (let m1 : matched cs (suc (0 + i)) ≡ ok p = subst (λ k. matched cs k ≡ ok p) hit m in
                let m2 : matched cs (suc i) ≡ ok p =
                  subst (λ k. matched cs (suc k) ≡ ok p) (omega arith) m1 in
                let (e, secret, entry_found, set, hashed, principal) =
                  entry_behind sha256 lookup_env [] entries cs i c
                    (new-Issued sha256 lookup_env entries cs made) at in
                let (c', at', mine) = indexed-ok (credential_at cs i) p m2 in
                let same_c : c ≡ c' = cc in
                record {
                  token = token;
                  secret = secret;
                  position = i;
                  entry = e;
                  sent = sent;
                  configured = entry_found;
                  set = set;
                  same_digest = same ∙ hashed;
                  principal =
                      sym mine
                      ∙ ap (λ (k : StaticCredential). k.principal) (sym same_c)
                      ∙ principal;
                })
        ]

    accepted :
        (authorization : Str) (p : Principal)
        → IsHolder entries authorization p
        → static_authenticate sha256 cs authorization ≡ ok p
    unfolding static_authenticate
    accepted authorization p h =
        let (c, at, principal, hashed, hit) =
          match_credential-hit sha256 lookup_env [] entries cs h.position h.entry
            (new-Issued sha256 lookup_env entries cs made) h.configured in
        let digest : c.digest ≡ sha256 h.token = hashed h.secret h.set ∙ sym h.same_digest in
        let m : match_credential (sha256 h.token) 0 0 cs ≡ suc h.position =
          subst (λ d. match_credential d 0 0 cs ≡ suc h.position) digest (hit 0 0 ∙ omega arith) in
        rw (h.sent, m, at) (ap (λ (q : Principal). ok q) (principal ∙ sym h.principal))

    -- An authenticator made of the entries accepts a header as a principal exactly when the header
    -- holds a bearer token whose SHA-256 is that of the token that the environment sets for one of
    -- the entries, and the principal is that of the entry.
    pub static_authenticate_iff :
        (authorization : Str) (p : Principal)
        → (static_authenticate sha256 cs authorization ≡ ok p) ↔ IsHolder entries authorization p
    unfolding static_authenticate
    static_authenticate_iff authorization p = (
      λ h.
          let (token, sent, m) = bind-ok (bearer_token authorization) _ h in
          matched-IsHolder authorization token p sent m,
      accepted authorization p,
    )

-- The header that carries a token.
unfoldable pub bearer_header : Str → Str
unfolding lit
bearer_header token = lit "Bearer " ++ token

bearer_header-trimmed :
    (token : Str)
    → has_space token ≡ false
    → (token == []) ≡ false
    → trim_space (bearer_header token) ≡ bearer_header token
unfolding bearer_header lit is_space
bearer_header-trimmed token h n =
    let (d, front, e, hd) = last_solid token h n in
    trim_space_ends (bearer_header token) b'B' d (lit "earer " ++ token)
      (front ++ reverse (lit "Bearer ")) refl
      (reverse-append (lit "Bearer ") token ∙ ap (λ t. t ++ reverse (lit "Bearer ")) e) refl hd

cut-header : (token : Str) → cut b' ' (bearer_header token) ≡ some (lit "Bearer", token)
unfolding cut bearer_header lit
cut-header token = refl

token_of-word :
    (token : Str)
    → has_space token ≡ false
    → (token == []) ≡ false
    → token_of (some (lit "Bearer", token)) ≡ ok token
unfolding token_of
token_of-word token h n = rw (trim_space_word token h n, equal_fold_refl (lit "Bearer"), n, h) refl

bearer_token-header :
    (token : Str)
    → has_space token ≡ false
    → (token == []) ≡ false
    → bearer_token (bearer_header token) ≡ ok token
unfolding bearer_token
bearer_token-header token h n =
    rw (bearer_header-trimmed token h n, cut-header token) (token_of-word token h n)

module _ (sha256 : Str → Str) (lookup_env : Str → Option Str) where
  -- Where an authenticator is made of the entries, the header "Bearer " with the token that the
  -- environment sets for an entry authenticates the principal of that entry.
  pub static_authenticate-bearer :
      (entries : List StaticToken) (cs : List StaticCredential) (i : ℕ) (entry : StaticToken)
      (secret : Str)
      → new_static_authenticator sha256 lookup_env entries ≡ ok cs
      → entry_at entries i ≡ some entry
      → lookup_env (trim_space entry.token_env) ≡ some secret
      → static_authenticate sha256 cs (bearer_header secret) ≡ ok (principal_of entry)
  static_authenticate-bearer entries cs i entry secret made at set =
      let (word, solid) =
        word_behind sha256 lookup_env [] entries cs i entry secret
          (new-Issued sha256 lookup_env entries cs made) at set in
      (static_authenticate_iff sha256 lookup_env entries cs made (bearer_header secret)
          (principal_of entry)).1
        (record {
          token = secret;
          secret = secret;
          position = i;
          entry = entry;
          sent = bearer_token-header secret word solid;
          configured = at;
          set = set;
          same_digest = refl;
          principal = refl;
        })
