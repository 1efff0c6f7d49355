-- ===== src/Tests/LaneRuns.antt =====
-- Runs of the lane assigner.
use merger.Prelude.{pos, ◌≡◌, ◌↔◌, ◌≤◌, refl, arith}
use merger.Prelude.Int.{◌≤ℤ◌}
use merger.Domain.{MergeLane, ChangePacket}
use merger.Lanes.{Config, order, assign, requires_escalated_review}
use merger.Lanes.Assign.{
  IsGreen, IsBlack, IsOrdered, with_score, assign-above-minimum, assign-green_iff, assign-black_iff,
}
use merger.Tests.Fixtures.{blank_packet}

abbrev defaults : Config
defaults = record { green_max = pos 24; yellow_max = pos 59; red_max = pos 84 }

defaults-IsOrdered : IsOrdered defaults
defaults-IsOrdered = record { green_yellow = omega arith; yellow_red = omega arith }

abbrev hot_packet : ChangePacket
hot_packet = with_score (pos 90) blank_packet

hot_black : assign defaults hot_packet ≡ MergeLane.black
unfolding assign requires_escalated_review
hot_black = refl

assign-above-minimum_example :
    order hot_packet.decision.minimum_lane ≤ order (assign defaults hot_packet)
assign-above-minimum_example = assign-above-minimum defaults hot_packet

assign-green_iff_example :
    (assign defaults blank_packet ≡ MergeLane.green) ↔ IsGreen defaults blank_packet
assign-green_iff_example = assign-green_iff defaults blank_packet

assign-black_iff_example :
    (assign defaults hot_packet ≡ MergeLane.black) ↔ IsBlack defaults hot_packet
assign-black_iff_example = assign-black_iff defaults hot_packet defaults-IsOrdered

ten-twenty : pos 10 ≤ℤ pos 20
ten-twenty = omega arith
