-- ===== src/Policy/Bindings.antt =====
-- A valid configuration binds each piece of evidence to one check, so the order of its rules does
-- not matter for the bindings.
use merger.Prelude.{
  ℕ, suc, ◌≡◌, refl, true, false, List, [], ◌∷◌, arith, Option, none, some, if◌then◌else◌, ◌==◌,
  eq→≡, eq_refl, Bool-cases, inl, inr, All, bind-ok, Result, ok, err,
}
use mathlib.Core.Path.{subst}
use merger.Prelude.Int.{int_key}
use merger.Text.{Str, str_key, trim_space}
use merger.Policy.Accepted.{validate_policy-Accepted}
use merger.Policy.{
  Config, RuleConfig, CheckBinding, Seen, bound_evidence, same_binding, clashes, bind_check,
  bind_checks, add_name, validate_policy, validate_policies, nothing_seen, validate, error_of,
  PolicyError,
}

same_binding→≡ : (a b : CheckBinding) → same_binding a b ≡ true → a ≡ b
same_binding→≡ a b h =
    ground (arith, eq→≡ a.evidence b.evidence, eq→≡ a.name b.name, eq→≡ a.app_id b.app_id)

bound-cons :
    (e : Str) (b : CheckBinding) (bs : List CheckBinding)
    → bound_evidence e (b ∷ bs) ≡ (if b.evidence == e then some b else bound_evidence e bs)
unfolding bound_evidence
bound-cons e b bs = refl

-- What one accepted binding changes: its evidence is bound to it, and what was bound stays so.
record Kept (seen seen' : Seen) : Type 0 where
  keeps :
      (e : Str) (x : CheckBinding)
      → bound_evidence e seen.evidence_bindings ≡ some x
      → bound_evidence e seen'.evidence_bindings ≡ some x

Kept-refl : (seen : Seen) → Kept seen seen
Kept-refl seen = record { keeps = λ e x k. k }

Kept-trans : {a b c : Seen} → Kept a b → Kept b c → Kept a c
Kept-trans f g = record { keeps = λ e x k. g.keeps e x (f.keeps e x k) }

bind_check-adds :
    (seen : Seen) (b : CheckBinding) (seen' : Seen)
    → bind_check seen b ≡ ok seen'
    → (seen'.evidence_bindings ≡ b ∷ seen.evidence_bindings)
      × (clashes b (bound_evidence b.evidence seen.evidence_bindings) ≡ false)
unfolding bind_check
bind_check-adds seen b seen' h = (ground arith, ground arith)

bind_check-binds :
    (seen : Seen) (b : CheckBinding) (seen' : Seen)
    → bind_check seen b ≡ ok seen'
    → bound_evidence b.evidence seen'.evidence_bindings ≡ some b
bind_check-binds seen b seen' h =
    rw ((bind_check-adds seen b seen' h).0, bound-cons, eq_refl b.evidence)

kept_binding :
    (b x : CheckBinding) (o : Option CheckBinding)
    → o ≡ some x
    → clashes b o ≡ false
    → some b ≡ some x
kept_binding b x o h c = ground (arith, same_binding→≡ x b)

bind_check-Kept :
    (seen : Seen) (b : CheckBinding) (seen' : Seen) → bind_check seen b ≡ ok seen' → Kept seen seen'
bind_check-Kept seen b seen' h =
    let (grown, agrees) = bind_check-adds seen b seen' h in
    record {
      keeps = λ e x k.
          rw (grown, bound-cons e b seen.evidence_bindings)
            (elim (Bool-cases (b.evidence == e)) [
              | inl same ↦ rw same (
                  kept_binding b x (bound_evidence b.evidence seen.evidence_bindings)
                    (rw (eq→≡ b.evidence e same) k) agrees)
              | inr other ↦ rw other k
            ]);
    }

-- The binding is the one that its evidence is bound to.
abbrev pub Recorded : Seen → CheckBinding → Type 0
Recorded seen b = bound_evidence b.evidence seen.evidence_bindings ≡ some b

All-map {ℓ κ μ} :
    {A : Type ℓ} {P : A → Type κ} {Q : A → Type μ} (f : (a : A) → P a → Q a) (xs : List A)
    → All P xs
    → All Q xs
All-map f [] h = tt
All-map f (x ∷ xs) (p, h) = (f x p, All-map f xs h)

Recorded-Kept : {a b : Seen} → Kept a b → (c : CheckBinding) → Recorded a c → Recorded b c
Recorded-Kept k c r = k.keeps c.evidence c r

bind_checks-Recorded :
    (seen : Seen) (bs : List CheckBinding) (seen' : Seen)
    → bind_checks seen bs ≡ ok seen'
    → Kept seen seen' × All (Recorded seen') bs
unfolding bind_checks
bind_checks-Recorded seen [] seen' h =
    let e : seen ≡ seen' = cc in (subst (Kept seen) e (Kept-refl seen), tt)
bind_checks-Recorded seen (b ∷ bs) seen' h =
    let (mid, one, more) = bind-ok (bind_check seen b) (λ s. bind_checks s bs) h in
    let (kept, all) = bind_checks-Recorded mid bs seen' more in
    (
      Kept-trans (bind_check-Kept seen b mid one) kept,
      (kept.keeps b.evidence b (bind_check-binds seen b mid one), all),
    )

-- Each binding of the rule is recorded.
abbrev pub AllRecorded : Seen → RuleConfig → Type 0
AllRecorded seen rule = All (Recorded seen) rule.require.github_checks

validate_policy-Recorded :
    (index : ℕ) (seen : Seen) (rule : RuleConfig) (seen' : Seen)
    → validate_policy index seen rule ≡ ok seen'
    → Kept seen seen' × AllRecorded seen' rule
validate_policy-Recorded index seen rule seen' h =
    let a = validate_policy-Accepted index seen rule seen' h in
    let (kept, all) =
      bind_checks-Recorded (add_name seen (trim_space rule.name)) rule.require.github_checks seen'
        a.bound in
    (record { keeps = kept.keeps }, all)

validate_policies-Recorded :
    (index : ℕ) (seen : Seen) (rules : List RuleConfig) (seen' : Seen)
    → validate_policies index seen rules ≡ ok seen'
    → Kept seen seen' × All (AllRecorded seen') rules
unfolding validate_policies
validate_policies-Recorded index seen [] seen' h =
    let e : seen ≡ seen' = cc in (subst (Kept seen) e (Kept-refl seen), tt)
validate_policies-Recorded index seen (rule ∷ rules) seen' h =
    let (mid, one, more) =
      bind-ok (validate_policy index seen rule) (λ s. validate_policies (suc index) s rules) h in
    let (first, here) = validate_policy-Recorded index seen rule mid one in
    let (kept, all) = validate_policies-Recorded (suc index) mid rules seen' more in
    (Kept-trans first kept, (All-map (Recorded-Kept kept) rule.require.github_checks here, all))

error_of-none : (r : Result PolicyError Seen) → error_of r ≡ none → (seen : Seen) × (r ≡ ok seen)
error_of-none (ok seen) h = (seen, refl)
error_of-none (err e) h = cc

-- What validation has seen at its end.
pub validate-Recorded :
    (config : Config)
    → validate config ≡ none
    → (seen : Seen) × All (AllRecorded seen) config.policies
validate-Recorded config h =
    let (seen, done) =
      error_of-none (validate_policies 0 nothing_seen config.policies) (unfold validate in h) in
    (seen, (validate_policies-Recorded 0 nothing_seen config.policies seen done).1)
