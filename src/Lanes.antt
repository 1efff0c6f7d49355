-- ===== src/Lanes.antt =====
-- internal/lanes/assigner.go: the merge lane of a packet, from the policy decision, the conflict
-- route, the risk score and the thresholds of the configuration.
pub mod Order
pub mod Assign
use merger.Prelude.{
  ℕ, Bool, true, false, not, ◌&&◌, ◌||◌, Option, none, some, List, [], ◌∷◌, ltb, leb, any, is_empty,
  ℤ, if◌then◌else◌,
}
use merger.Prelude.Int.{leb_ℤ}
use merger.Domain.{MergeLane, DecisionStatus, ConflictRoute, ReviewerRequirement, ChangePacket}

pub record Config : Type 0 where
  pub green_max : ℤ
  pub yellow_max : ℤ
  pub red_max : ℤ

-- The map `order` of `maxLane`; a lane that is no key has rank 0.
unfoldable pub order : MergeLane → ℕ
order MergeLane.green = 1
order MergeLane.yellow = 2
order MergeLane.red = 3
order MergeLane.black = 4
order _ = 0

unfoldable pub max_lane : MergeLane → MergeLane → MergeLane
unfolding order
max_lane a MergeLane.unset = a
max_lane a b = if ltb (order a) (order b) then b else a

unfoldable pub requires_escalated_review : List ReviewerRequirement → Bool
requires_escalated_review = any (λ r. r.mandatory)

abbrev pub is_blocked : DecisionStatus → Bool
is_blocked DecisionStatus.blocked = true
is_blocked _ = false

abbrev pub is_open : DecisionStatus → Bool
is_open DecisionStatus.pending = true
is_open DecisionStatus.escalated = true
is_open _ = false

abbrev pub is_refresh : ConflictRoute → Bool
is_refresh ConflictRoute.refresh_and_verify = true
is_refresh _ = false

abbrev pub is_black : MergeLane → Bool
is_black MergeLane.black = true
is_black _ = false

-- `forcedLane`; `none` for the returned `false`.
unfoldable pub forced_lane : ChangePacket → Option MergeLane
unfolding max_lane
forced_lane p =
    if is_blocked p.decision.status || p.conflict.requires_human_resolution
    then some MergeLane.black
    else if is_refresh p.conflict.route
    then some (max_lane MergeLane.red p.decision.minimum_lane)
    else if is_black p.decision.minimum_lane
    then some MergeLane.black
    else if is_open p.decision.status
    then some (max_lane MergeLane.red p.decision.minimum_lane)
    else none

-- The part of `Assign` that compares the score with the thresholds.
unfoldable pub threshold_lane : Config → ChangePacket → MergeLane
threshold_lane c p =
    let score = p.risk_summary.score in
    let escalated = requires_escalated_review p.reviewers in
    let canary = p.deployment.requires_canary in
    if leb_ℤ score c.green_max && (is_empty p.reviewers && not canary)
    then max_lane MergeLane.green p.decision.minimum_lane
    else if leb_ℤ score c.yellow_max && not escalated
    then max_lane MergeLane.yellow p.decision.minimum_lane
    else if leb_ℤ score c.red_max || (escalated || canary)
    then max_lane MergeLane.red p.decision.minimum_lane
    else MergeLane.black

abbrev lane_or : Option MergeLane → MergeLane → MergeLane
lane_or (some lane) _ = lane
lane_or none lane = lane

unfoldable pub assign : Config → ChangePacket → MergeLane
unfolding forced_lane threshold_lane max_lane
assign c p = lane_or (forced_lane p) (threshold_lane c p)
