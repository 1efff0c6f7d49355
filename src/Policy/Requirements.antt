-- ===== src/Policy/Requirements.antt =====
-- The reviewers and the evidence that an evaluation asks for.
use merger.Prelude.{
  ℕ, ◌≡◌, refl, ap, inl, inr, true, Bool, List, [], ◌∷◌, ◌++◌, any, arith, ◌||◌, ◌&&◌, Bool-cases,
}
use merger.Text.Laws.{equal_fold_trans}
use merger.Text.{Str, str_key, equal_fold}
use merger.Domain.{ChangePacket, ReviewerRequirement}
use merger.Policy.Step.{apply_matching-hit, apply_matching-miss}
use merger.Policy.{
  RuleConfig, Evaluation, matches_rule, append_unique_reviewer, add_reviewers, required_reviewer,
  apply_rule, apply_matching, initial, evaluate_rules,
}

any-append {ℓ} :
    {A : Type ℓ} (f : A → Bool) (xs ys : List A) → any f (xs ++ ys) ≡ (any f xs || any f ys)
any-append f [] ys = refl
any-append f (x ∷ xs) ys = ground (arith, any-append f xs ys)

-- A reviewer requirement for the team, up to case.
abbrev pub asked : Str → List ReviewerRequirement → Bool
asked team = any (λ r. equal_fold r.team team)

covered :
    (team seen : Str) (values : List ReviewerRequirement)
    → asked seen values ≡ true
    → equal_fold seen team ≡ true
    → asked team values ≡ true
covered team seen [] h k = cc
covered team seen (v ∷ vs) h k =
    ground (arith, covered team seen vs, equal_fold_trans v.team seen team)

asked_unique :
    (team : Str) (values : List ReviewerRequirement) (r : ReviewerRequirement)
    → asked team (append_unique_reviewer values r) ≡ (asked team values || equal_fold r.team team)
unfolding append_unique_reviewer
asked_unique team values r = ground (
  arith,
  covered team r.team values,
  any-append (λ (x : ReviewerRequirement). equal_fold x.team team) values (r ∷ []),
)

asked-add_reviewers :
    (team rule : Str) (teams : List Str) (values : List ReviewerRequirement)
    → asked team (add_reviewers rule teams values)
      ≡ (asked team values || any (λ t. equal_fold t team) teams)
unfolding add_reviewers required_reviewer
asked-add_reviewers team rule [] values = ground arith
asked-add_reviewers team rule (t ∷ teams) values =
    let r = required_reviewer rule t in
    ground (
      arith,
      asked-add_reviewers team rule teams (append_unique_reviewer values r),
      asked_unique team values r,
    )

-- Some matching rule names the team, up to case.
abbrev pub team_demanded : Str → ChangePacket → List RuleConfig → Bool
team_demanded team p =
    any (λ r. matches_rule r p && any (λ t. equal_fold t team) r.require.reviewers)

reviewers-apply_rule :
    (ev : Evaluation) (rule : RuleConfig)
    → (apply_rule ev rule).reviewers ≡ add_reviewers rule.name rule.require.reviewers ev.reviewers
unfolding apply_rule
reviewers-apply_rule ev rule = refl

asked-apply_matching :
    (team : Str) (p : ChangePacket) (rules : List RuleConfig) (ev : Evaluation)
    → asked team (apply_matching p rules ev).reviewers
      ≡ (asked team ev.reviewers || team_demanded team p rules)
asked-apply_matching team p [] ev = unfold apply_matching in ground arith
asked-apply_matching team p (rule ∷ rules) ev = elim (Bool-cases (matches_rule rule p)) [
  | inl hit ↦ rw (apply_matching-hit p rule rules ev hit) (
      ground (
        arith,
        asked-apply_matching team p rules (apply_rule ev rule),
        ap (asked team) (reviewers-apply_rule ev rule),
        asked-add_reviewers team rule.name rule.require.reviewers ev.reviewers,
      ))
  | inr miss ↦
      rw (apply_matching-miss p rule rules ev miss)
        (ground (arith, asked-apply_matching team p rules ev))
]

-- A team is asked for review exactly when some matching rule names it, up to letter case.
evaluate-asks_team :
    (now : ℕ) (rules : List RuleConfig) (p : ChangePacket) (team : Str)
    → asked team (evaluate_rules now rules p).reviewers ≡ team_demanded team p rules
unfolding evaluate_rules
evaluate-asks_team now rules p team = asked-apply_matching team p rules (initial now)
