-- ===== src/Access/Credential.antt =====
-- Which credential a static token meets, and which entry is behind a credential.
use merger.Prelude.{
  ◌≡◌, ◌⊎◌, refl, sym, ap, ◌∙◌, ℕ, zero, suc, ◌+◌, true, false, List, [], ◌∷◌, Option, some, ◌==◌,
  arith, Bool-cases, inl, inr, eq→≡, eq_refl, ne→neq, All,
}
use merger.Text.{Str, str_key, trim_space, has_space}
use merger.Access.Static.{StaticToken, StaticCredential, member, match_credential, credential_at}
use merger.Access.Issued.{Issued, principal_of, entry_at, true-ne-false}

module _ (sha256 : Str → Str) (lookup_env : Str → Option Str) where
  abbrev Fresh : Str → List StaticCredential → Type 0
  Fresh d cs = All (λ c. (d == c.digest) ≡ false) cs

  Issued-Fresh :
      (d : Str) (digests : List Str) (es : List StaticToken) (cs : List StaticCredential)
      → member d digests ≡ true
      → Issued sha256 lookup_env digests es cs
      → Fresh d cs
  Issued-Fresh d digests [] [] m h = tt
  Issued-Fresh d digests (e ∷ es) (c ∷ cs) m (i, h) = (
    ne→neq d c.digest (λ same.
        let known : member (sha256 i.token) digests ≡ true = rw (← i.hashed) (rw (← same) m) in
        absurd (true-ne-false (sym known ∙ i.is_new))),
    Issued-Fresh d (c.digest ∷ digests) es cs (ground arith) h,
  )
  Issued-Fresh d digests [] (c ∷ cs) m h = absurd h
  Issued-Fresh d digests (e ∷ es) [] m h = tt

  match_credential-Fresh :
      (d : Str) (index found : ℕ) (cs : List StaticCredential)
      → Fresh d cs
      → match_credential d index found cs ≡ found
  unfolding match_credential
  match_credential-Fresh d index found [] h = refl
  match_credential-Fresh d index found (c ∷ cs) (n, h) =
      rw n (match_credential-Fresh d (suc index) found cs h)

  pub match_credential-hit :
      (digests : List Str) (es : List StaticToken) (cs : List StaticCredential) (i : ℕ)
      (e : StaticToken)
      → Issued sha256 lookup_env digests es cs
      → entry_at es i ≡ some e
      → (c : StaticCredential) × (credential_at cs i ≡ some c)
        × (c.principal ≡ principal_of e)
        × ((secret : Str)
            → lookup_env (trim_space e.token_env) ≡ some secret
            → c.digest ≡ sha256 secret)
        × ((index found : ℕ) → match_credential c.digest index found cs ≡ suc (index + i))
  unfolding match_credential
  match_credential-hit digests [] [] i e h at = absurd (cc)
  match_credential-hit digests [] (c ∷ cs) i e h at = absurd h
  match_credential-hit digests (e' ∷ es) [] i e h at = absurd h
  match_credential-hit digests (e' ∷ es) (c ∷ cs) zero e (issued, h) at =
      let same : e' ≡ e = cc in
      let others =
        Issued-Fresh c.digest (c.digest ∷ digests) es cs (rw (eq_refl c.digest) refl) h in
      (
        c,
        refl,
        issued.principal ∙ ap principal_of same,
        λ secret set.
            issued.hashed
            ∙ ap sha256 (
                let s : lookup_env (trim_space e.token_env) ≡ some issued.token =
                  rw (← same) issued.set in
                cc),
        λ index found.
            rw (eq_refl c.digest)
              (match_credential-Fresh c.digest (suc index) (suc index) cs others ∙ omega arith),
      )
  match_credential-hit digests (e' ∷ es) (c ∷ cs) (suc i) e (issued, h) at =
      let (c', found_at, principal, hashed, hit) =
        match_credential-hit (c.digest ∷ digests) es cs i e h at in
      (c', found_at, principal, hashed, λ index found. hit (suc index) _ ∙ omega arith)

  pub match_credential-cases :
      (d : Str) (index found : ℕ) (cs : List StaticCredential)
      → (match_credential d index found cs ≡ found)
        ⊎ ((i : ℕ) × (c : StaticCredential) × (credential_at cs i ≡ some c)
            × (d ≡ c.digest)
            × (match_credential d index found cs ≡ suc (index + i)))
  unfolding match_credential
  match_credential-cases d index found [] = inl refl
  match_credential-cases d index found (c ∷ cs) = elim (Bool-cases (d == c.digest)) [
    | inl same ↦ elim (match_credential-cases d (suc index) (suc index) cs) [
      | inl e ↦ inr (0, c, refl, eq→≡ d c.digest same, rw same (e ∙ omega arith))
      | inr (i, c', at, eq, m) ↦ inr (suc i, c', at, eq, rw same (m ∙ omega arith))
    ]
    | inr other ↦ elim (match_credential-cases d (suc index) found cs) [
      | inl e ↦ inl (rw other e)
      | inr (i, c', at, eq, m) ↦ inr (suc i, c', at, eq, rw other (m ∙ omega arith))
    ]
  ]

  pub entry_behind :
      (digests : List Str) (es : List StaticToken) (cs : List StaticCredential) (i : ℕ)
      (c : StaticCredential)
      → Issued sha256 lookup_env digests es cs
      → credential_at cs i ≡ some c
      → (e : StaticToken) × (secret : Str) × (entry_at es i ≡ some e)
        × (lookup_env (trim_space e.token_env) ≡ some secret)
        × (c.digest ≡ sha256 secret)
        × (c.principal ≡ principal_of e)
  entry_behind digests [] [] i c h at = absurd (cc)
  entry_behind digests [] (c' ∷ cs) i c h at = absurd h
  entry_behind digests (e ∷ es) [] i c h at = absurd h
  entry_behind digests (e ∷ es) (c' ∷ cs) zero c (issued, h) at =
      let same : c' ≡ c = cc in
      (
        e,
        issued.token,
        refl,
        issued.set,
        ap (λ (k : StaticCredential). k.digest) (sym same) ∙ issued.hashed,
        ap (λ (k : StaticCredential). k.principal) (sym same) ∙ issued.principal,
      )
  entry_behind digests (e ∷ es) (c' ∷ cs) (suc i) c (issued, h) at =
      entry_behind (c'.digest ∷ digests) es cs i c h at

  pub word_behind :
      (digests : List Str) (es : List StaticToken) (cs : List StaticCredential) (i : ℕ)
      (e : StaticToken) (secret : Str)
      → Issued sha256 lookup_env digests es cs
      → entry_at es i ≡ some e
      → lookup_env (trim_space e.token_env) ≡ some secret
      → (has_space secret ≡ false) × ((secret == []) ≡ false)
  word_behind digests [] [] i e secret h at set = absurd (cc)
  word_behind digests [] (c ∷ cs) i e secret h at set = absurd h
  word_behind digests (e' ∷ es) [] i e secret h at set = absurd h
  word_behind digests (e' ∷ es) (c ∷ cs) zero e secret (issued, h) at set =
      let same : e' ≡ e = cc in
      let found : lookup_env (trim_space e.token_env) ≡ some issued.token =
        rw (← same) issued.set in
      let token : issued.token ≡ secret = cc in
      (rw (← token) issued.one_word, rw (← token) issued.some_token)
  word_behind digests (e' ∷ es) (c ∷ cs) (suc i) e secret (issued, h) at set =
      word_behind (c.digest ∷ digests) es cs i e secret h at set
