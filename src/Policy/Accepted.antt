-- ===== src/Policy/Accepted.antt =====
-- What `Validate` has checked of a rule that it accepts.
use merger.Prelude.{
  ℕ, ◌≡◌, refl, false, Bool-cases, inl, inr, Option, none, some, ok, bind-ok, is_empty,
}
use merger.Text.{Str, trim_space}
use merger.Policy.{
  RuleConfig, RuleError, Seen, validate_rule, bind_checks, or_rule_error, validate_policy, add_name,
  name_taken,
}

or_rule_error-same :
    (index : ℕ) (name : Str) (e : Option RuleError) (seen seen' : Seen)
    → or_rule_error index name e seen ≡ ok seen'
    → seen ≡ seen'
unfolding or_rule_error
or_rule_error-same index name none seen seen' h = cc
or_rule_error-same index name (some e) seen seen' h = cc

pub record Accepted (seen : Seen) (rule : RuleConfig) (seen' : Seen) : Type 0 where
  pub named : is_empty (trim_space rule.name) ≡ false
  pub fresh : name_taken (trim_space rule.name) seen.names ≡ false
  pub valid : validate_rule rule ≡ none
  pub bound :
      bind_checks (add_name seen (trim_space rule.name)) rule.require.github_checks ≡ ok seen'

or_rule_error-none :
    (index : ℕ) (name : Str) (e : Option RuleError) (seen seen' : Seen)
    → or_rule_error index name e seen ≡ ok seen'
    → e ≡ none
unfolding or_rule_error
or_rule_error-none index name none seen seen' h = refl
or_rule_error-none index name (some e) seen seen' h = cc

pub validate_policy-Accepted :
    (index : ℕ) (seen : Seen) (rule : RuleConfig) (seen' : Seen)
    → validate_policy index seen rule ≡ ok seen'
    → Accepted seen rule seen'
unfolding validate_policy
validate_policy-Accepted index seen rule seen' h =
    elim (Bool-cases (is_empty (trim_space rule.name))) [
      | inl empty ↦ let k = rw empty at h in cc
      | inr named ↦
          let name = trim_space rule.name in
          let k = rw named at h in
          elim (Bool-cases (name_taken name seen.names)) [
            | inl taken ↦ let l = rw taken at k in cc
            | inr fresh ↦
                let l = rw fresh at k in
                let (mid, checked, bound) =
                  bind-ok (or_rule_error index name (validate_rule rule) (add_name seen name))
                    (λ s. bind_checks s rule.require.github_checks) l in
                record {
                  named = named;
                  fresh = fresh;
                  valid =
                      or_rule_error-none index name (validate_rule rule) (add_name seen name) mid
                        checked;
                  bound =
                      rw
                        (or_rule_error-same index name (validate_rule rule) (add_name seen name) mid
                          checked)
                        bound;
                }
          ]
    ]
