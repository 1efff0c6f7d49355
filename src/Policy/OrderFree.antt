-- ===== src/Policy/OrderFree.antt =====
-- The order of the rules does not matter for what a piece of evidence is bound to.
use merger.Prelude.{
  ℕ, ◌≡◌, refl, sym, ◌∙◌, true, Bool, List, [], ◌∷◌, arith, ◌&&◌, Option, none, some, All, ◌==◌,
  Option-cases, inl, inr, Bool-cases, eq→≡,
}
use mathlib.Core.List.{Memᴰ}
use mathlib.Core.Path.{subst}
use merger.Text.{Str, str_key}
use merger.Domain.{ChangePacket, GitHubCheckBinding}
use merger.Policy.{
  RuleConfig, CheckBinding, Seen, Config, matches_rule, find_binding, bound_evidence,
  evaluate_rules, validate, or_binding,
}
use merger.Policy.Bindings.{Recorded, AllRecorded, validate-Recorded}
use merger.Policy.Evidence.{binding_of, binding_demanded, listed, or_same, evaluate-evidence}

abbrev check_of : CheckBinding → GitHubCheckBinding
check_of b = record { name = b.name; app_id = b.app_id }

abbrev check_of_found : Option CheckBinding → Option GitHubCheckBinding
check_of_found none = none
check_of_found (some b) = some (check_of b)

-- The check that the validated configuration binds the evidence to.
abbrev registered : Seen → Str → Option GitHubCheckBinding
registered seen e = check_of_found (bound_evidence e seen.evidence_bindings)

find_binding-registered :
    (seen : Seen) (e : Str) (bs : List CheckBinding) (g : GitHubCheckBinding)
    → All (Recorded seen) bs
    → find_binding e bs ≡ some g
    → registered seen e ≡ some g
unfolding find_binding
find_binding-registered seen e [] g all h = cc
find_binding-registered seen e (b ∷ bs) g (one, all) h = elim (Bool-cases (b.evidence == e)) [
  | inl same ↦
      let k = rw same at h in
      subst (λ x. registered seen x ≡ some g) (eq→≡ b.evidence e same) (rw one k)
  | inr other ↦ find_binding-registered seen e bs g all (rw other at h)
]

demanded-registered :
    (seen : Seen) (e : Str) (p : ChangePacket) (rules : List RuleConfig) (g : GitHubCheckBinding)
    → All (AllRecorded seen) rules
    → binding_demanded e p rules ≡ some g
    → registered seen e ≡ some g
demanded-registered seen e p [] g all h = cc
demanded-registered seen e p (r ∷ rs) g (one, all) h = ground (
  arith,
  demanded-registered seen e p rs g,
  find_binding-registered seen e r.require.github_checks g,
)

-- A matching rule that asks for the evidence and binds it.
record Binds (e : Str) (p : ChangePacket) (r : RuleConfig) : Type 0 where
  asks_it : (matches_rule r p && listed e r.require.evidence) ≡ true
  check : GitHubCheckBinding
  binds_it : find_binding e r.require.github_checks ≡ some check

or_same-some :
    (b : Bool) (o : Option GitHubCheckBinding) (g : GitHubCheckBinding)
    → or_same b o ≡ some g
    → (b ≡ true) × (o ≡ some g)
or_same-some b o g h = ground arith

demanded-source :
    (e : Str) (p : ChangePacket) (rules : List RuleConfig) (g : GitHubCheckBinding)
    → binding_demanded e p rules ≡ some g
    → (r : RuleConfig) × Memᴰ r rules × Binds e p r
demanded-source e p [] g h = cc
demanded-source e p (r ∷ rs) g h =
    let asked = matches_rule r p && listed e r.require.evidence in
    let found = find_binding e r.require.github_checks in
    elim (Option-cases (or_same asked found)) [
      | inl nothing ↦
          let (s, m, b) = demanded-source e p rs g (rw nothing at h) in (s, Memᴰ.tail m, b)
      | inr (g', mine) ↦
          let (a, f) = or_same-some asked found g' mine in
          (r, Memᴰ.head refl, record { asks_it = a; check = g'; binds_it = f })
    ]

or_binding-left :
    (a b : Option GitHubCheckBinding) (g : GitHubCheckBinding)
    → a ≡ some g
    → (h : GitHubCheckBinding) × (or_binding a b ≡ some h)
or_binding-left a b g h = (g, ground arith)

or_binding-right :
    (a b : Option GitHubCheckBinding) (g : GitHubCheckBinding)
    → b ≡ some g
    → (h : GitHubCheckBinding) × (or_binding a b ≡ some h)
or_binding-right none b g h = (g, h)
or_binding-right (some a) b g h = (a, refl)

same_head :
    (e : Str) (p : ChangePacket) (r : RuleConfig) (b : Binds e p r)
    → or_same
        (matches_rule r p && listed e r.require.evidence)
        (find_binding e r.require.github_checks)
      ≡ some b.check
same_head e p r b = rw (b.asks_it, b.binds_it)

demanded-some :
    (e : Str) (p : ChangePacket) (rules : List RuleConfig) (r : RuleConfig)
    → Memᴰ r rules
    → Binds e p r
    → (g : GitHubCheckBinding) × (binding_demanded e p rules ≡ some g)
demanded-some e p [] r m b = elim m [ ]
demanded-some e p (x ∷ xs) r (Memᴰ.head q) b =
    let c = subst (Binds e p) q b in or_binding-left _ _ c.check (same_head e p x c)
demanded-some e p (x ∷ xs) r (Memᴰ.tail m) b =
    let (g, h) = demanded-some e p xs r m b in or_binding-right _ _ g h

All-Memᴰ :
    (P : RuleConfig → Type 0) (xs ys : List RuleConfig)
    → ((r : RuleConfig) → Memᴰ r ys → Memᴰ r xs)
    → All P xs
    → All P ys
All-Memᴰ P xs [] f all = tt
All-Memᴰ P xs (y ∷ ys) f all =
    (get xs y (f y (Memᴰ.head refl)) all, All-Memᴰ P xs ys (λ r m. f r (Memᴰ.tail m)) all)
  where
    get : (zs : List RuleConfig) (r : RuleConfig) → Memᴰ r zs → All P zs → P r
    get [] r m h = elim m [ ]
    get (z ∷ zs) r (Memᴰ.head q) (p, h) = subst P (sym q) p
    get (z ∷ zs) r (Memᴰ.tail m) (p, h) = get zs r m h

demanded_same :
    (seen : Seen) (e : Str) (p : ChangePacket) (xs ys : List RuleConfig)
    → All (AllRecorded seen) xs
    → ((r : RuleConfig) → Memᴰ r xs → Memᴰ r ys)
    → ((r : RuleConfig) → Memᴰ r ys → Memᴰ r xs)
    → binding_demanded e p xs ≡ binding_demanded e p ys
demanded_same seen e p xs ys all f g = elim (Option-cases (binding_demanded e p xs)) [
  | inl none_x ↦ elim (Option-cases (binding_demanded e p ys)) [
    | inl none_y ↦ none_x ∙ sym none_y
    | inr (h, some_y) ↦
        let (r, m, b) = demanded-source e p ys h some_y in
        let (k, some_x) = demanded-some e p xs r (g r m) b in cc
  ]
  | inr (h, some_x) ↦ elim (Option-cases (binding_demanded e p ys)) [
    | inl none_y ↦
        let (r, m, b) = demanded-source e p xs h some_x in
        let (k, some_y) = demanded-some e p ys r (f r m) b in cc
    | inr (k, some_y) ↦ cc (
      demanded-registered seen e p xs h all some_x,
      demanded-registered seen e p ys k (All-Memᴰ (AllRecorded seen) xs ys g all) some_y,
    )
  ]
]

-- Where a valid configuration and another one hold the same rules, in whatever order and as often as
-- they like, each piece of evidence is bound to the same GitHub check, or by both to none.
pub evaluate-binding_order :
    (now : ℕ) (config : Config) (rules : List RuleConfig) (p : ChangePacket) (e : Str)
    → validate config ≡ none
    → ((r : RuleConfig) → Memᴰ r config.policies → Memᴰ r rules)
    → ((r : RuleConfig) → Memᴰ r rules → Memᴰ r config.policies)
    → binding_of e (evaluate_rules now config.policies p).evidence
      ≡ binding_of e (evaluate_rules now rules p).evidence
evaluate-binding_order now config rules p e valid f g =
    let (seen, all) = validate-Recorded config valid in
    (evaluate-evidence now config.policies p e).1
    ∙ demanded_same seen e p config.policies rules all f g
    ∙ sym (evaluate-evidence now rules p e).1
