-- ===== src/Tests/PipelineRuns.antt =====
-- Runs of the stages, and of the settings.
use merger.Prelude.{
  ℕ, ℤ, pos, ◌≡◌, ◌≢◌, ◌↔◌, refl, List, [], ◌∷◌, Bool, true, false, ◌&&◌, ◌||◌, leb, is_empty, none,
  some, Option, insertion_order,
}
use merger.Text.{Str, lit}
use merger.Domain.{ChangePacket, MergeLane}
use merger.Risk.{default_weights}
use merger.Policy
use merger.Lanes.{Config, assign}
use merger.Lanes.Assign.{IsBlack, with_score}
use merger.Pipeline.{Engines, Effect, finalize, enrich_risk, assign_merge_lane, judged}
use merger.Pipeline.Finalize.{saved_first, any_check, succeeds, finalize-saved_first}
use merger.Settings.{validate_lanes, parse_fail_lane}
use merger.Settings.Lawful.{valid-black_iff}
use merger.Tests.Fixtures.{blank_packet}

abbrev standard : Config
standard = record { green_max = pos 24; yellow_max = pos 59; red_max = pos 84 }

abbrev engines : Engines
engines = record {
  order = insertion_order;
  weights = default_weights;
  policy = record { policies = [] };
  lanes = standard;
  now = 5;
}

abbrev clean_packet : ChangePacket
clean_packet = assign_merge_lane engines (
    judged (enrich_risk engines blank_packet)
      (Policy.evaluate_rules 5 [] (enrich_risk engines blank_packet)))

abbrev all_well : Effect → Option Str
all_well effect = none

finalize-saved_first_example :
    (saved_first (finalize true all_well blank_packet).0 ≡ true)
    × (any_check (finalize true all_well blank_packet).0 ≡ (
        (is_empty blank_packet.decision.violations || succeeds (all_well Effect.publish_violations))
        && (succeeds (all_well Effect.publish_lane) && succeeds (all_well Effect.save_packet))))
finalize-saved_first_example = finalize-saved_first all_well blank_packet

standard_valid : validate_lanes standard ≡ none
unfolding validate_lanes
standard_valid = refl

valid-black_iff_example :
    (assign standard (with_score (pos 90) blank_packet) ≡ MergeLane.black)
    ↔ IsBlack standard (with_score (pos 90) blank_packet)
valid-black_iff_example = valid-black_iff standard (with_score (pos 90) blank_packet) standard_valid

abbrev red_text : Str
red_text = 114 ∷ 101 ∷ 100 ∷ []

red_named : red_text ≢ []
red_named e = cc

red_parsed : parse_fail_lane red_text ≡ some MergeLane.red
unfolding parse_fail_lane merger.Text.Str-discrete merger.Text.to_upper lit
red_parsed = refl
