-- ===== src/Access/Issued.antt =====
-- What the credentials of static tokens are made of.
use merger.Prelude.{
  ◌≡◌, refl, ℕ, zero, suc, Bool, true, false, List, [], ◌∷◌, Option, none, some, ◌==◌, Result, ok,
  err, bind-ok, else-ok, arith, ◌≢◌,
}
use mathlib.Core.Path.{subst}
use merger.Text.{Str, str_key, trim_space, has_space, to_lower}
use merger.Access.{Role, Principal}
use merger.Access.Roles.{RolesError, validated_roles}
use merger.Access.Static.{
  StaticToken, StaticCredential, Taken, nothing_taken, member, credential_of, with_roles,
  take_entry, take_entries, new_static_authenticator,
}

abbrev pub principal_of : StaticToken → Principal
principal_of entry = record { subject = trim_space entry.subject; roles = entry.roles }

abbrev pub entry_at : List StaticToken → ℕ → Option StaticToken
entry_at [] i = none
entry_at (e ∷ es) zero = some e
entry_at (e ∷ es) (suc i) = entry_at es i

pub true-ne-false : ◌≢◌ {A = Bool} true false
true-ne-false h = cc

validated_roles_same : (roles given : List Role) → validated_roles roles ≡ ok given → given ≡ roles
unfolding validated_roles
validated_roles_same [] given h = cc
validated_roles_same (r ∷ roles) given h = ground arith

module _ (sha256 : Str → Str) (lookup_env : Str → Option Str) where
  -- A credential was made from its entry, and its digest from a token that none before it has.
  pub record IsIssued (digests : List Str) (entry : StaticToken) (c : StaticCredential)
      : Type 0 where
    pub token : Str
    pub set : lookup_env (trim_space entry.token_env) ≡ some token
    pub hashed : c.digest ≡ sha256 token
    pub principal : c.principal ≡ principal_of entry
    pub some_token : (token == []) ≡ false
    pub one_word : has_space token ≡ false
    pub is_new : member (sha256 token) digests ≡ false

  abbrev pub Issued : List Str → List StaticToken → List StaticCredential → Type 0
  Issued digests [] [] = Unit
  Issued digests (e ∷ es) (c ∷ cs) = IsIssued digests e c × Issued (c.digest ∷ digests) es cs
  Issued digests [] (c ∷ cs) = ⊥
  Issued digests (e ∷ es) [] = ⊥

  credential_of-IsIssued :
      (entry : StaticToken) (roles : List Role) (taken next : Taken) (o : Option Str)
      (c : StaticCredential)
      → lookup_env (trim_space entry.token_env) ≡ o
      → roles ≡ entry.roles
      → credential_of sha256 (trim_space entry.subject) (trim_space entry.token_env) roles taken o
        ≡ ok (c, next)
      → IsIssued taken.digests entry c × (next.digests ≡ c.digest ∷ taken.digests)
  unfolding credential_of
  credential_of-IsIssued entry roles taken next none c e r h = cc
  credential_of-IsIssued entry roles taken next (some token) c e r h = (
    record {
      token = token;
      set = e;
      hashed = ground arith;
      principal = ground arith;
      some_token = ground arith;
      one_word = ground arith;
      is_new = ground arith;
    },
    ground arith,
  )

  with_roles-IsIssued :
      (index : ℕ) (entry : StaticToken) (taken next : Taken) (c : StaticCredential)
      (o : Result RolesError (List Role))
      → validated_roles entry.roles ≡ o
      → with_roles sha256 lookup_env index
          (trim_space entry.subject)
          (trim_space entry.token_env)
          taken
          o
        ≡ ok (c, next)
      → IsIssued taken.digests entry c × (next.digests ≡ c.digest ∷ taken.digests)
  with_roles-IsIssued index entry taken next c (err e) v h = cc
  with_roles-IsIssued index entry taken next c (ok roles) v h =
      credential_of-IsIssued entry roles taken next (lookup_env (trim_space entry.token_env)) c refl
        (validated_roles_same entry.roles roles v) h

  take_entry-IsIssued :
      (index : ℕ) (entry : StaticToken) (taken next : Taken) (c : StaticCredential)
      → take_entry sha256 lookup_env index entry taken ≡ ok (c, next)
      → IsIssued taken.digests entry c × (next.digests ≡ c.digest ∷ taken.digests)
  unfolding take_entry
  take_entry-IsIssued index entry taken next c h =
      let (_, h1) = else-ok (trim_space entry.subject == []) _ _ h in
      let (_, h2) = else-ok (member (to_lower (trim_space entry.subject)) taken.subjects) _ _ h1 in
      let (_, h3) = else-ok (trim_space entry.token_env == []) _ _ h2 in
      let (_, h4) = else-ok (member (trim_space entry.token_env) taken.environments) _ _ h3 in
      with_roles-IsIssued index entry
        (record taken {
          subjects = to_lower (trim_space entry.subject) ∷ taken.subjects;
          environments = trim_space entry.token_env ∷ taken.environments;
        })
        next c (validated_roles entry.roles) refl h4

  take_entries-Issued :
      (index : ℕ) (entries : List StaticToken) (taken : Taken) (cs : List StaticCredential)
      → take_entries sha256 lookup_env index entries taken ≡ ok cs
      → Issued taken.digests entries cs
  unfolding take_entries
  take_entries-Issued index [] taken [] h = tt
  take_entries-Issued index [] taken (c ∷ cs) h = cc
  take_entries-Issued index (e ∷ es) taken cs h =
      let ((c, next), t, h1) = bind-ok (take_entry sha256 lookup_env index e taken) _ h in
      let (rest, r, h2) = bind-ok (take_entries sha256 lookup_env (suc index) es next) _ h1 in
      let (issued, grown) = take_entry-IsIssued index e taken next c t in
      let same : c ∷ rest ≡ cs = cc in
      subst (Issued taken.digests (e ∷ es)) same (
        issued,
        subst (λ ds. Issued ds es rest) grown (take_entries-Issued (suc index) es next rest r),
      )

  pub new-Issued :
      (entries : List StaticToken) (cs : List StaticCredential)
      → new_static_authenticator sha256 lookup_env entries ≡ ok cs
      → Issued [] entries cs
  unfolding new_static_authenticator
  new-Issued [] cs h = cc
  new-Issued (e ∷ es) cs h = take_entries-Issued 0 (e ∷ es) nothing_taken cs h
