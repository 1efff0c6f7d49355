-- ===== src/Access/Granted.antt =====
-- The subject and the roles that claims give.
use merger.Prelude.{
  ◌≡◌, refl, sym, ap, ◌∙◌, Bool, true, false, ◌||◌, List, [], ◌∷◌, ◌++◌, Option, none, some, ◌==◌,
  ok, Dict, lookup, arith, inl, inr, any, Bool-cases, if◌then◌else◌, eq→≡,
}
use merger.Text.{Str, str_key, trim_space}
use merger.Access.{Role, role_key}
use merger.Access.Claims.{
  Claim, JwtAuthenticator, claim, string_claim, claim_values, bind_values, append_bound_roles,
  bound_to,
}
use merger.Access.Jwt.{subject_from_claims, roles_from_claims, named, bound}

abbrev pub holds : Role → List Role → Bool
holds role roles = any (λ r. r == role) roles

-- The bindings give the role to this value of the claim.
abbrev pub binds : Dict Str (List Role) → Role → Str → Bool
binds bindings role v = holds role (bound_to (lookup v bindings))

holds-append :
    (role : Role) (xs ys : List Role) → holds role (xs ++ ys) ≡ (holds role xs || holds role ys)
holds-append role [] ys = refl
holds-append role (x ∷ xs) ys = ground (arith, holds-append role xs ys)

holds-grown :
    (role next : Role) (current : List Role)
    → holds role (if holds next current then current else current ++ next ∷ [])
      ≡ (holds role current || (next == role))
holds-grown role next current = elim (Bool-cases (holds next current)) [
  | inl old ↦ rw old (seen current old)
  | inr new ↦ rw new (holds-append role current (next ∷ []) ∙ ground arith)
]
  where
    seen :
        (xs : List Role) → holds next xs ≡ true → holds role xs ≡ (holds role xs || (next == role))
    seen [] h = cc
    seen (x ∷ xs) h = elim (Bool-cases (x == next)) [
      | inl e ↦ (let same : x ≡ next = eq→≡ x next e in rw same (ground arith))
      | inr n ↦ ground (arith, seen xs (rw n at h))
    ]

append_bound_roles-holds :
    (role : Role) (current bound : List Role)
    → holds role (append_bound_roles current bound) ≡ (holds role current || holds role bound)
unfolding append_bound_roles
append_bound_roles-holds role current [] = ground arith
append_bound_roles-holds role current (next ∷ bound) =
    append_bound_roles-holds role (if holds next current then current else current ++ next ∷ [])
      bound
    ∙ ground (arith, holds-grown role next current)

bind_values-holds :
    (bindings : Dict Str (List Role)) (role : Role) (roles : List Role) (values : List Str)
    → holds role (bind_values bindings roles values)
      ≡ (holds role roles || any (λ v. binds bindings role v) values)
unfolding bind_values
bind_values-holds bindings role roles [] = ground arith
bind_values-holds bindings role roles (v ∷ values) =
    bind_values-holds bindings role (append_bound_roles roles (bound_to (lookup v bindings))) values
    ∙ ground (arith, append_bound_roles-holds role roles (bound_to (lookup v bindings)))

-- The subject of a token: the claim is a text, and is not blank.
pub record IsSubject (name : Str) (claims : Dict Str Claim) (subject : Str) : Type 0 where
  pub written : Str
  pub is_text : claim name claims ≡ Claim.text written
  pub trimmed : trim_space written ≡ subject
  pub not_blank : (subject == []) ≡ false

named-IsSubject :
    (name : Str) (claims : Dict Str Claim) (c : Claim) (subject : Str)
    → claim name claims ≡ c
    → named (string_claim c) ≡ ok subject
    → IsSubject name claims subject
unfolding string_claim
named-IsSubject name claims (Claim.text s) subject e h = elim (Bool-cases (trim_space s == [])) [
  | inl blank ↦ absurd (ground arith)
  | inr full ↦
      (let same : trim_space s ≡ subject = ground arith in
        record { written = s; is_text = e; trimmed = same; not_blank = rw (← same) full })
]
named-IsSubject name claims Claim.nil subject e h = cc
named-IsSubject name claims (Claim.number n) subject e h = cc
named-IsSubject name claims (Claim.float n) subject e h = cc
named-IsSubject name claims (Claim.list items) subject e h = cc
named-IsSubject name claims Claim.other subject e h = cc

module _ {Key : Type 0} (a : JwtAuthenticator Key) where
  pub subject_from_claims-IsSubject :
      (claims : Dict Str Claim) (subject : Str)
      → subject_from_claims a claims ≡ ok subject
      → IsSubject a.subject_claim claims subject
  unfolding subject_from_claims
  subject_from_claims-IsSubject claims subject h =
      named-IsSubject a.subject_claim claims (claim a.subject_claim claims) subject refl h

  pub roles_from_claims-binds :
      (claims : Dict Str Claim) (roles : List Role)
      → roles_from_claims a claims ≡ ok roles
      → (values : List Str) × (claim_values (claim a.roles_claim claims) ≡ some values)
        × ((role : Role) → holds role roles ≡ any (λ v. binds a.bindings role v) values)
  unfolding roles_from_claims
  roles_from_claims-binds claims roles h =
      bound-binds (claim_values (claim a.roles_claim claims)) refl h
    where
      bound-binds :
          (o : Option (List Str))
          → claim_values (claim a.roles_claim claims) ≡ o
          → bound a o ≡ ok roles
          → (values : List Str) × (claim_values (claim a.roles_claim claims) ≡ some values)
            × ((role : Role) → holds role roles ≡ any (λ v. binds a.bindings role v) values)
      bound-binds none e h = cc
      bound-binds (some values) e h =
          let same : bind_values a.bindings [] values ≡ roles = cc in
          (
            values,
            e,
            λ role. ap (holds role) (sym same) ∙ bind_values-holds a.bindings role [] values,
          )
