-- ===== src/Policy/MinimumLane.antt =====
-- The minimum lane of a decision is the highest that a matching rule demands.
use Prim.Native.Nat.{max}
use merger.Prelude.{ℕ, ◌≡◌, refl, List, [], ◌∷◌, arith, if◌then◌else◌}
use merger.Domain.{MergeLane, ChangePacket}
use merger.Policy.{
  RuleConfig, Evaluation, matches_rule, order, raise_lane, apply_rule, apply_matching, initial,
  evaluate_rules,
}

order-raise_lane : (a b : MergeLane) → order (raise_lane a b) ≡ max (order a) (order b)
unfolding raise_lane
order-raise_lane a MergeLane.unset = ground arith
order-raise_lane MergeLane.unset b = ground arith
order-raise_lane a b = ground arith

-- The highest rank among the minimum lanes of the matching rules.
abbrev pub demanded : ChangePacket → List RuleConfig → ℕ
demanded p [] = 0
demanded p (rule ∷ rules) =
    max (if matches_rule rule p then order rule.action.minimum_lane else 0) (demanded p rules)

lane-apply_rule :
    (ev : Evaluation) (rule : RuleConfig)
    → (apply_rule ev rule).decision.minimum_lane
      ≡ raise_lane ev.decision.minimum_lane rule.action.minimum_lane
unfolding apply_rule
lane-apply_rule ev rule = refl

lane-apply_matching :
    (p : ChangePacket) (rules : List RuleConfig) (ev : Evaluation)
    → order (apply_matching p rules ev).decision.minimum_lane
      ≡ max (order ev.decision.minimum_lane) (demanded p rules)
unfolding apply_matching
lane-apply_matching p [] ev = omega arith
lane-apply_matching p (rule ∷ rules) ev =
    let lane = rule.action.minimum_lane in
    ground (
      arith,
      lane-apply_matching p rules (if matches_rule rule p then apply_rule ev rule else ev),
      lane-apply_rule ev rule,
      order-raise_lane ev.decision.minimum_lane lane,
    )

-- The rank of the decision's minimum lane is the highest rank that a matching rule demands, 0 if
-- none demands any: in any order of the rules.
pub evaluate-minimum_lane :
    (now : ℕ) (rules : List RuleConfig) (p : ChangePacket)
    → order (evaluate_rules now rules p).decision.minimum_lane ≡ demanded p rules
unfolding evaluate_rules
evaluate-minimum_lane now rules p = omega (arith, lane-apply_matching p rules (initial now))
