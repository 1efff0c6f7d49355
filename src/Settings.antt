-- ===== src/Settings.antt =====
-- internal/config/config.go, `Validate` as far as the lanes; and the lane threshold of
-- internal/cli/scan.go.
pub mod Lawful
pub mod Model
pub mod AccessRules
pub mod Services
pub mod Fails
pub mod StaticAgrees
pub mod JwtAgrees
pub mod Startup
use merger.Prelude.{
  ℕ, ℤ, pos, Bool, true, false, not, ◌&&◌, ◌||◌, Option, none, some, List, [], ◌∷◌, if◌then◌else◌,
  leb, ◌==◌,
}
use merger.Prelude.Int.{ltb_ℤ}
use merger.Text.{Str, str_key, lit, to_upper}
use merger.Domain.{MergeLane}
use merger.Lanes.{Config}

pub data LanesError : Type 0 where
  out_of_range not_increasing : LanesError

abbrev off_scale : ℤ → Bool
off_scale n = ltb_ℤ n (pos 0) || ltb_ℤ (pos 100) n

-- The two checks of the thresholds; the configuration is used as the one of the assigner.
unfoldable pub validate_lanes : Config → Option LanesError
validate_lanes c =
    if off_scale c.green_max || (off_scale c.yellow_max || off_scale c.red_max)
    then some LanesError.out_of_range
    else if not (ltb_ℤ c.green_max c.yellow_max && ltb_ℤ c.yellow_max c.red_max)
    then some LanesError.not_increasing
    else none

-- The map `laneRank`; `none` for a lane that is no key of it.
unfoldable pub lane_rank : MergeLane → Option ℕ
lane_rank MergeLane.green = some 1
lane_rank MergeLane.yellow = some 2
lane_rank MergeLane.red = some 3
lane_rank MergeLane.black = some 4
lane_rank _ = none

abbrev pub or_zero : Option ℕ → ℕ
or_zero none = 0
or_zero (some n) = n

-- Whether `enforceFailLane` ends the command with the exit code 2.
unfoldable pub enforce_fail_lane : MergeLane → MergeLane → Bool
unfolding lane_rank
enforce_fail_lane MergeLane.unset lane = false
enforce_fail_lane fail_lane lane = leb (or_zero (lane_rank fail_lane)) (or_zero (lane_rank lane))

-- `parseFailLane`; `none` is an error.
unfoldable pub parse_fail_lane : Str → Option MergeLane
parse_fail_lane [] = some MergeLane.unset
parse_fail_lane (c ∷ raw) =
    let text = to_upper (c ∷ raw) in
    if text == lit "GREEN"
    then some MergeLane.green
    else if text == lit "YELLOW"
    then some MergeLane.yellow
    else if text == lit "RED"
    then some MergeLane.red
    else if text == lit "BLACK"
    then some MergeLane.black
    else none
