-- ===== src/Tests/PolicyRuns.antt =====
-- Runs of the policy engine.
use merger.Prelude.{pos, ◌≡◌, ◌↔◌, refl, [], ◌∷◌, ◌++◌, true, false, All, none, is_empty}
use mathlib.Core.List.{Memᴰ}
use merger.Text.{lit, trim_space, to_lower, is_blank}
use merger.Domain.{
  MergeLane, MutationKind, MutationKind-discrete, DeploymentStrategy, DecisionStatus,
}
use merger.Policy.{
  RuleConfig, Config, CheckBinding, WhenClause, RequirementClause, evaluate_rules, matches_rule,
  packet_has_any_mutation, order, validate, Seen,
}
use merger.Policy.Status.{Undemanding, evaluate-approved_iff}
use merger.Policy.Blocks.{evaluate-forgets_block}
use merger.Policy.MinimumLane.{evaluate-minimum_lane, demanded}
use merger.Policy.Evidence.{binding_of}
use merger.Policy.Bindings.{validate-Recorded, AllRecorded}
use merger.Policy.OrderFree.{evaluate-binding_order}
use merger.Tests.Fixtures.{auth_packet, blank_packet}

abbrev on_auth : WhenClause
on_auth = record {
  mutations = MutationKind.auth_behavior_change ∷ [];
  paths = [];
  criticalities = [];
  risk_score_gte = pos 0;
  ownership_teams = [];
}

abbrev nothing_required : RequirementClause
nothing_required = record {
  reviewers = [];
  evidence = [];
  github_checks = [];
  deployment = record {
    strategy = DeploymentStrategy.unset;
    requires_canary = false;
    requires_rollback_plan = false;
    environments = [];
  };
}

abbrev block_rule : RuleConfig
block_rule = record {
  name = lit "freeze";
  description = [];
  when = on_auth;
  require = nothing_required;
  action = record { block = true; minimum_lane = MergeLane.black };
}

abbrev scan_binding : CheckBinding
scan_binding = record { evidence = lit "scan"; name = lit "sast"; app_id = pos 1 }

abbrev review_rule : RuleConfig
review_rule = record {
  name = lit "review";
  description = [];
  when = on_auth;
  require = record nothing_required {
    reviewers = lit "security" ∷ [];
    evidence = lit "scan" ∷ [];
    github_checks = scan_binding ∷ [];
  };
  action = record { block = false; minimum_lane = MergeLane.red };
}

block_matches : matches_rule block_rule auth_packet ≡ true
unfolding matches_rule packet_has_any_mutation MutationKind-discrete
block_matches = refl

review_matches : matches_rule review_rule auth_packet ≡ true
unfolding matches_rule packet_has_any_mutation MutationKind-discrete
review_matches = refl

evaluate-forgets_block_example :
    let d = (evaluate_rules 9 ([] ++ block_rule ∷ ([] ++ review_rule ∷ [])) auth_packet).decision in
    (d.status ≡ DecisionStatus.pending) × (is_empty d.violations ≡ false)
evaluate-forgets_block_example =
    evaluate-forgets_block 9 auth_packet [] block_rule [] review_rule block_matches refl
      review_matches refl refl

evaluate-approved_iff_example :
    ((evaluate_rules 9 (block_rule ∷ review_rule ∷ []) blank_packet).decision.status
      ≡ DecisionStatus.approved)
    ↔ All (Undemanding blank_packet) (block_rule ∷ review_rule ∷ [])
evaluate-approved_iff_example = evaluate-approved_iff 9 (block_rule ∷ review_rule ∷ []) blank_packet

evaluate-minimum_lane_example :
    order (evaluate_rules 9 (block_rule ∷ review_rule ∷ []) auth_packet).decision.minimum_lane
    ≡ demanded auth_packet (block_rule ∷ review_rule ∷ [])
evaluate-minimum_lane_example = evaluate-minimum_lane 9 (block_rule ∷ review_rule ∷ []) auth_packet

abbrev team_policy : Config
team_policy = record { policies = block_rule ∷ review_rule ∷ [] }

team_policy_valid : validate team_policy ≡ none
unfolding validate lit trim_space to_lower is_blank
team_policy_valid = refl

validate-Recorded_example : (seen : Seen) × All (AllRecorded seen) team_policy.policies
validate-Recorded_example = validate-Recorded team_policy team_policy_valid

swapped : {A : Type 0} (a b r : A) → Memᴰ r (a ∷ b ∷ []) → Memᴰ r (b ∷ a ∷ [])
swapped a b r (Memᴰ.head e) = Memᴰ.tail (Memᴰ.head e)
swapped a b r (Memᴰ.tail (Memᴰ.head e)) = Memᴰ.head e
swapped a b r (Memᴰ.tail (Memᴰ.tail m)) = elim m [ ]

evaluate-binding_order_example :
    binding_of (lit "scan") (evaluate_rules 9 team_policy.policies auth_packet).evidence
    ≡ binding_of
        (lit "scan")
        (evaluate_rules 9 (review_rule ∷ block_rule ∷ []) auth_packet).evidence
evaluate-binding_order_example =
    evaluate-binding_order 9 team_policy (review_rule ∷ block_rule ∷ []) auth_packet (lit "scan")
      team_policy_valid (swapped block_rule review_rule) (swapped review_rule block_rule)
