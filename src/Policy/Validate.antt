-- ===== src/Policy/Validate.antt =====
-- validation.go. An error carries what its message quotes; the rule's label is its index and name.
use merger.Prelude.{
  ℕ, suc, Bool, false, not, ◌&&◌, List, [], ◌∷◌, Option, none, some, ℤ, ◌==◌, any, is_empty,
  if◌then◌else◌, Result, ok, err, ◌>>=◌,
}
use merger.Prelude.Int.{int_key}
use merger.Text.{Str, str_key, trim_space, to_lower}
use merger.Policy.Model.{Config, RuleConfig, CheckBinding}
use merger.Policy.ValidateRule.{RuleError, validate_rule}

pub data PolicyError : Type 0 where
  empty_name : ℕ → PolicyError
  duplicate_name : Str → PolicyError
  in_rule : ℕ → Str → RuleError → PolicyError
  conflicting_bindings : Str → PolicyError
  shared_check : Str → ℤ → Str → Str → PolicyError

-- The maps of `Validate`: the names, what each piece of evidence is bound to, and what each check
-- (its name and app) is bound to. A write puts the entry in front of the older one.
pub record Seen : Type 0 where
  pub names : List Str
  pub evidence_bindings : List CheckBinding
  pub check_bindings : List CheckBinding

-- evidenceBindings[evidence]
unfoldable pub bound_evidence : Str → List CheckBinding → Option CheckBinding
bound_evidence e [] = none
bound_evidence e (b ∷ bs) = if b.evidence == e then some b else bound_evidence e bs

-- checkBindings[identity], with the evidence as the value.
unfoldable pub bound_check : Str → ℤ → List CheckBinding → Option Str
bound_check name app [] = none
bound_check name app (b ∷ bs) =
    if b.name == name && b.app_id == app then some b.evidence else bound_check name app bs

abbrev pub same_binding : CheckBinding → CheckBinding → Bool
same_binding a b = a.evidence == b.evidence && (a.name == b.name && a.app_id == b.app_id)

abbrev pub clashes : CheckBinding → Option CheckBinding → Bool
clashes b none = false
clashes b (some existing) = not (same_binding existing b)

abbrev other_evidence : Str → Option Str → Option Str
other_evidence e none = none
other_evidence e (some e') = if e' == e then none else some e'

unfoldable pub bind_check : Seen → CheckBinding → Result PolicyError Seen
unfolding bound_evidence bound_check
bind_check seen b =
    if clashes b (bound_evidence b.evidence seen.evidence_bindings)
    then err (conflicting_bindings b.evidence)
    else elim (other_evidence b.evidence (bound_check b.name b.app_id seen.check_bindings)) [
      | some e ↦ err (shared_check b.name b.app_id e b.evidence)
      | none ↦ ok (record seen {
        evidence_bindings = b ∷ seen.evidence_bindings;
        check_bindings = b ∷ seen.check_bindings;
      })
    ]

unfoldable pub bind_checks : Seen → List CheckBinding → Result PolicyError Seen
unfolding bind_check
bind_checks seen [] = ok seen
bind_checks seen (b ∷ bs) = bind_check seen b >>= λ seen'. bind_checks seen' bs

unfoldable pub or_rule_error : ℕ → Str → Option RuleError → Seen → Result PolicyError Seen
or_rule_error index name none seen = ok seen
or_rule_error index name (some e) seen = err (in_rule index name e)

abbrev pub add_name : Seen → Str → Seen
add_name seen name = record seen { names = to_lower name ∷ seen.names }

abbrev pub name_taken : Str → List Str → Bool
name_taken name = any (λ n. n == to_lower name)

-- One round of the loop over the policies.
unfoldable pub validate_policy : ℕ → Seen → RuleConfig → Result PolicyError Seen
validate_policy index seen rule =
    let name = trim_space rule.name in
    if is_empty name
    then err (empty_name index)
    else if name_taken name seen.names
    then err (duplicate_name name)
    else do
      named ← or_rule_error index name (validate_rule rule) (add_name seen name)
      bind_checks named rule.require.github_checks

unfoldable pub validate_policies : ℕ → Seen → List RuleConfig → Result PolicyError Seen
validate_policies index seen [] = ok seen
validate_policies index seen (rule ∷ rules) =
    validate_policy index seen rule >>= λ seen'. validate_policies (suc index) seen' rules

abbrev pub nothing_seen : Seen
nothing_seen = record { names = []; evidence_bindings = []; check_bindings = [] }

abbrev pub error_of : Result PolicyError Seen → Option PolicyError
error_of (ok _) = none
error_of (err e) = some e

unfoldable pub validate : Config → Option PolicyError
unfolding validate_policies validate_policy validate_rule bind_checks or_rule_error
validate config = error_of (validate_policies 0 nothing_seen config.policies)
