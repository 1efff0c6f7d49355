-- ===== src/Policy/Blocks.antt =====
-- What becomes of the block of a matching rule.
use merger.Prelude.{
  ℕ, ◌≡◌, refl, ◌⊎◌, true, false, not, ◌&&◌, List, [], ◌∷◌, ◌++◌, All, is_empty, arith,
  if◌then◌else◌,
}
use merger.Text.{str_key}
use merger.Domain.{DecisionStatus, ChangePacket}
use merger.Policy.Step.{apply_matching-append, apply_matching-hit}
use merger.Policy.{
  RuleConfig, Evaluation, matches_rule, apply_status, apply_rule, apply_matching, initial,
  violation_of, evaluate_rules,
}
use merger.Policy.RuleStatus.{
  is_empty-append, asks, status-apply_rule, status-evaluate, pending_now,
}

violations-evaluate :
    (now : ℕ) (rules : List RuleConfig) (p : ChangePacket)
    → (evaluate_rules now rules p).decision.violations
      ≡ (apply_matching p rules (initial now)).decision.violations
unfolding evaluate_rules
violations-evaluate now rules p = refl

-- A rule that lets a decision stay as it is, or blocks it.
abbrev pub Harmless : ChangePacket → RuleConfig → Type 0
Harmless p rule = (matches_rule rule p ≡ false) ⊎ (rule.action.block ≡ true)

blocked-one :
    (p : ChangePacket) (rule : RuleConfig) (ev : Evaluation)
    → ev.decision.status ≡ DecisionStatus.blocked
    → Harmless p rule
    → (if matches_rule rule p then apply_rule ev rule else ev).decision.status
      ≡ DecisionStatus.blocked
unfolding apply_status
blocked-one p rule ev h k = ground (arith, status-apply_rule ev rule)

blocked-Harmless :
    (p : ChangePacket) (rules : List RuleConfig) (ev : Evaluation)
    → ev.decision.status ≡ DecisionStatus.blocked
    → All (Harmless p) rules
    → (apply_matching p rules ev).decision.status ≡ DecisionStatus.blocked
unfolding apply_matching
blocked-Harmless p [] ev h all = h
blocked-Harmless p (rule ∷ rules) ev h (one, all) =
    blocked-Harmless p rules (if matches_rule rule p then apply_rule ev rule else ev)
      (blocked-one p rule ev h one) all

blocked_now :
    (ev : Evaluation) (b : RuleConfig)
    → b.action.block ≡ true
    → (apply_rule ev b).decision.status ≡ DecisionStatus.blocked
unfolding apply_status
blocked_now ev b h = ground (arith, status-apply_rule ev b)

status-reached :
    (now : ℕ) (p : ChangePacket) (before : List RuleConfig) (b : RuleConfig)
    (after : List RuleConfig)
    → matches_rule b p ≡ true
    → (evaluate_rules now (before ++ b ∷ after) p).decision.status
      ≡ (apply_matching p after
          (apply_rule (apply_matching p before (initial now)) b)).decision.status
status-reached now p before b after hit = rw (
  status-evaluate now (before ++ b ∷ after) p,
  apply_matching-append p before (b ∷ after) (initial now),
  apply_matching-hit p b after (apply_matching p before (initial now)) hit,
)

-- A matching rule that blocks gives a blocked decision, whatever the rules before it say, if each
-- rule after it does not match or blocks too.
evaluate-blocked :
    (now : ℕ) (p : ChangePacket) (before : List RuleConfig) (b : RuleConfig)
    (after : List RuleConfig)
    → matches_rule b p ≡ true
    → b.action.block ≡ true
    → All (Harmless p) after
    → (evaluate_rules now (before ++ b ∷ after) p).decision.status ≡ DecisionStatus.blocked
evaluate-blocked now p before b after hit blocks all =
    let ev = apply_matching p before (initial now) in
    rw (status-reached now p before b after hit)
      (blocked-Harmless p after (apply_rule ev b) (blocked_now ev b blocks) all)

violations-apply_rule :
    (ev : Evaluation) (rule : RuleConfig)
    → is_empty (apply_rule ev rule).decision.violations
      ≡ (not rule.action.block && is_empty ev.decision.violations)
unfolding apply_rule
violations-apply_rule ev rule =
    ground (arith, is_empty-append ev.decision.violations (violation_of rule))

violations-kept :
    (p : ChangePacket) (rules : List RuleConfig) (ev : Evaluation)
    → is_empty ev.decision.violations ≡ false
    → is_empty (apply_matching p rules ev).decision.violations ≡ false
unfolding apply_matching
violations-kept p [] ev h = h
violations-kept p (rule ∷ rules) ev h =
    violations-kept p rules (if matches_rule rule p then apply_rule ev rule else ev)
      (ground (arith, violations-apply_rule ev rule))

violations-reached :
    (now : ℕ) (p : ChangePacket) (before : List RuleConfig) (b : RuleConfig)
    (after : List RuleConfig)
    → matches_rule b p ≡ true
    → (evaluate_rules now (before ++ b ∷ after) p).decision.violations
      ≡ (apply_matching p after
          (apply_rule (apply_matching p before (initial now)) b)).decision.violations
violations-reached now p before b after hit = rw (
  violations-evaluate now (before ++ b ∷ after) p,
  apply_matching-append p before (b ∷ after) (initial now),
  apply_matching-hit p b after (apply_matching p before (initial now)) hit,
)

-- A block is forgotten. Where a matching rule blocks, and the last rule matches, does not block and
-- asks for a reviewer or for evidence, the decision is pending and not blocked, although a
-- violation is recorded.
pub evaluate-forgets_block :
    (now : ℕ) (p : ChangePacket) (before : List RuleConfig) (b : RuleConfig)
    (middle : List RuleConfig) (rule : RuleConfig)
    → matches_rule b p ≡ true
    → b.action.block ≡ true
    → matches_rule rule p ≡ true
    → rule.action.block ≡ false
    → asks rule ≡ true
    → let d = (evaluate_rules now (before ++ b ∷ (middle ++ rule ∷ [])) p).decision in
      (d.status ≡ DecisionStatus.pending) × (is_empty d.violations ≡ false)
evaluate-forgets_block now p before b middle rule hit_b blocks hit free want =
    let ev = apply_rule (apply_matching p before (initial now)) b in
    (
      rw
          (
            status-reached now p before b (middle ++ rule ∷ []) hit_b,
            apply_matching-append p middle (rule ∷ []) ev,
            apply_matching-hit p rule [] (apply_matching p middle ev) hit,
          )
          (unfold apply_matching in pending_now (apply_matching p middle ev) rule free want),
      rw (violations-reached now p before b (middle ++ rule ∷ []) hit_b) (
          violations-kept p (middle ++ rule ∷ []) ev
            (ground (arith, violations-apply_rule (apply_matching p before (initial now)) b))),
    )
