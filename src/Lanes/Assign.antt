-- ===== src/Lanes/Assign.antt =====
-- What `Assign` promises.
use merger.Prelude.{
  ◌≤◌, ◌≡◌, ◌⊎◌, ◌↔◌, Option, ◌&&◌, ◌||◌, if◌then◌else◌, arith, true, false, Bool, none, some, ℤ,
  is_empty, not,
}
use merger.Prelude.Int.{◌≤ℤ◌, leb_ℤ, ◌<ℤ◌}
use merger.Domain.{MergeLane, ChangePacket}
use merger.Lanes.Order.{order-max_lane, order-le, order_values}
use merger.Lanes.{
  Config, order, max_lane, assign, forced_lane, threshold_lane, lane_or, is_blocked, is_open,
  is_refresh, requires_escalated_review,
}

-- Whatever the configuration and the packet, the assigned lane ranks at least as high as the
-- minimum lane of the policy decision.
pub assign-above-minimum :
    (c : Config) (p : ChangePacket) → order p.decision.minimum_lane ≤ order (assign c p)
unfolding assign
assign-above-minimum c p = ground arith

pub record IsGreen (c : Config) (p : ChangePacket) : Type 0 where
  pub not_blocked : is_blocked p.decision.status ≡ false
  pub not_open : is_open p.decision.status ≡ false
  pub no_markers : p.conflict.requires_human_resolution ≡ false
  pub no_refresh : is_refresh p.conflict.route ≡ false
  pub low_minimum : order p.decision.minimum_lane ≤ 1
  pub low_score : p.risk_summary.score ≤ℤ c.green_max
  pub no_reviewers : is_empty p.reviewers ≡ true
  pub no_canary : p.deployment.requires_canary ≡ false

-- A packet is GREEN exactly when nothing forces another lane (no block, no open decision, no
-- conflict route, a minimum lane of at most GREEN), its score is at most `green_max`, and the policy
-- asks for no reviewer and no canary.
pub assign-green_iff :
    (c : Config) (p : ChangePacket) → (assign c p ≡ MergeLane.green) ↔ IsGreen c p
unfolding assign
assign-green_iff c p = (λ h. ground arith, λ h. ground arith)

pub record IsOrdered (c : Config) : Type 0 where
  pub green_yellow : c.green_max ≤ℤ c.yellow_max
  pub yellow_red : c.yellow_max ≤ℤ c.red_max

pub record IsOverRed (c : Config) (p : ChangePacket) : Type 0 where
  pub high_score : c.red_max <ℤ p.risk_summary.score
  pub no_mandatory : requires_escalated_review p.reviewers ≡ false
  pub no_canary : p.deployment.requires_canary ≡ false
  pub not_open : is_open p.decision.status ≡ false
  pub no_refresh : is_refresh p.conflict.route ≡ false

pub record IsBlack (c : Config) (p : ChangePacket) : Type 0 where
  pub cause :
      (is_blocked p.decision.status ≡ true)
      ⊎ (p.conflict.requires_human_resolution ≡ true)
      ⊎ (p.decision.minimum_lane ≡ MergeLane.black)
      ⊎ IsOverRed c p

-- With thresholds in order, a packet is BLACK exactly when its decision is blocked, it needs human
-- conflict resolution, its minimum lane is BLACK, or its score is over `red_max` while the decision
-- is not open, the route is not a refresh, and there is neither a mandatory reviewer nor a canary.
pub assign-black_iff :
    (c : Config) (p : ChangePacket) → IsOrdered c → (assign c p ≡ MergeLane.black) ↔ IsBlack c p
unfolding assign
assign-black_iff c p o = (λ h. record { cause = ground arith }, λ h. ground arith)

abbrev pub with_score : ℤ → ChangePacket → ChangePacket
with_score s p = record p { risk_summary = record p.risk_summary { score = s } }

-- The choice of `threshold_lane`, its three tests given.
abbrev pick : Bool → Bool → Bool → MergeLane → MergeLane
pick g y r m =
    if g
    then max_lane MergeLane.green m
    else if y
    then max_lane MergeLane.yellow m
    else if r
    then max_lane MergeLane.red m
    else MergeLane.black

pick_mono :
    (m : MergeLane) (g y r g' y' r' : Bool)
    → (g' ≡ true → g ≡ true)
    → (y' ≡ true → y ≡ true)
    → (r' ≡ true → r ≡ true)
    → order (pick g y r m) ≤ order (pick g' y' r' m)
pick_mono m g y r g' y' r' hg hy hr = ground (
  arith,
  order-max_lane MergeLane.green m,
  order-max_lane MergeLane.yellow m,
  order-max_lane MergeLane.red m,
  order_values,
  order-le m,
)

leb_ℤ-down : (s t u : ℤ) → s ≤ℤ t → leb_ℤ t u ≡ true → leb_ℤ s u ≡ true
leb_ℤ-down s t u h k = ground arith

and-down : (a b c : Bool) → (a ≡ true → b ≡ true) → (a && c) ≡ true → (b && c) ≡ true
and-down a b c h k = ground arith

or-down : (a b c : Bool) → (a ≡ true → b ≡ true) → (a || c) ≡ true → (b || c) ≡ true
or-down a b c h k = ground arith

threshold_lane_mono :
    (c : Config) (p : ChangePacket) (s t : ℤ)
    → s ≤ℤ t
    → order (threshold_lane c (with_score s p)) ≤ order (threshold_lane c (with_score t p))
unfolding threshold_lane
threshold_lane_mono c p s t h =
    let few = is_empty p.reviewers && not p.deployment.requires_canary in
    let free = not (requires_escalated_review p.reviewers) in
    let gated = requires_escalated_review p.reviewers || p.deployment.requires_canary in
    pick_mono p.decision.minimum_lane _ _ _ _ _ _ (and-down _ _ few (leb_ℤ-down s t c.green_max h))
      (and-down _ _ free (leb_ℤ-down s t c.yellow_max h))
      (or-down _ _ gated (leb_ℤ-down s t c.red_max h))

lane_or_mono :
    (o : Option MergeLane) (a b : MergeLane)
    → order a ≤ order b
    → order (lane_or o a) ≤ order (lane_or o b)
lane_or_mono none a b h = h
lane_or_mono (some lane) a b h = omega arith

-- A higher risk score never lowers the lane, all else equal.
assign_mono :
    (c : Config) (p : ChangePacket) (s t : ℤ)
    → s ≤ℤ t
    → order (assign c (with_score s p)) ≤ order (assign c (with_score t p))
unfolding assign
assign_mono c p s t h = lane_or_mono (forced_lane p) _ _ (threshold_lane_mono c p s t h)
