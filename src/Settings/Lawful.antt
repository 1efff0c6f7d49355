-- ===== src/Settings/Lawful.antt =====
-- What a valid configuration of the lanes gives, and what a threshold of the command line means.
use merger.Prelude.{◌≡◌, ◌≢◌, ◌↔◌, refl, none, some, arith, leb, [], ◌∷◌}
use merger.Text.{Str}
use merger.Domain.{MergeLane, ChangePacket}
use merger.Lanes.{Config, order, assign}
use merger.Lanes.Assign.{IsOrdered, IsBlack, assign-black_iff}
use merger.Settings.{validate_lanes, lane_rank, or_zero, enforce_fail_lane, parse_fail_lane}

-- Thresholds that pass the validation are in order.
pub validate_lanes-IsOrdered : (c : Config) → validate_lanes c ≡ none → IsOrdered c
unfolding validate_lanes
validate_lanes-IsOrdered c h = record { green_yellow = ground arith; yellow_red = ground arith }

-- With a valid configuration, a packet is BLACK exactly when its decision is blocked, it needs human
-- conflict resolution, its minimum lane is BLACK, or its score is over `red_max` while the decision
-- is not open, the route is not a refresh, and there is neither a mandatory reviewer nor a canary.
pub valid-black_iff :
    (c : Config) (p : ChangePacket)
    → validate_lanes c ≡ none
    → (assign c p ≡ MergeLane.black) ↔ IsBlack c p
valid-black_iff c p h = assign-black_iff c p (validate_lanes-IsOrdered c h)

rank-order : (lane : MergeLane) → or_zero (lane_rank lane) ≡ order lane
unfolding lane_rank order
rank-order lane = ground arith

enforce-leb :
    (fail_lane lane : MergeLane)
    → fail_lane ≢ MergeLane.unset
    → enforce_fail_lane fail_lane lane
      ≡ leb (or_zero (lane_rank fail_lane)) (or_zero (lane_rank lane))
unfolding enforce_fail_lane
enforce-leb MergeLane.unset lane n = absurd (n refl)
enforce-leb MergeLane.green lane n = refl
enforce-leb MergeLane.yellow lane n = refl
enforce-leb MergeLane.red lane n = refl
enforce-leb MergeLane.black lane n = refl
enforce-leb (MergeLane.other s) lane n = refl

parsed-named :
    (raw : Str) (fail_lane : MergeLane)
    → raw ≢ []
    → parse_fail_lane raw ≡ some fail_lane
    → fail_lane ≢ MergeLane.unset
unfolding parse_fail_lane
parsed-named [] l n h = absurd (n refl)
parsed-named (c ∷ raw) l n h = λ e. ground arith

-- A threshold that the command line accepts and that is not empty fails a scan exactly when the lane
-- of the packet ranks at least as high as the threshold in the order of the lane assigner.
parse_fail_lane-enforce :
    (raw : Str) (fail_lane lane : MergeLane)
    → raw ≢ []
    → parse_fail_lane raw ≡ some fail_lane
    → enforce_fail_lane fail_lane lane ≡ leb (order fail_lane) (order lane)
parse_fail_lane-enforce raw l lane n h =
    rw (enforce-leb l lane (parsed-named raw l n h), rank-order l, rank-order lane) refl
