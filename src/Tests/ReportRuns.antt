-- ===== src/Tests/ReportRuns.antt =====
-- Runs of the calibration report, the conflict analysis and the diff parser.
use merger.Prelude.{◌≡◌, ◌≢◌, refl, [], ◌∷◌, ◌++◌, false}
use merger.Text.{Str, lit, is_blank}
use merger.Domain.{
  DeploymentOutcome, OutcomeKind, MergeLane, RiskType, ChangePacket, ChangedFile, FileStatus,
}
use merger.ControlPlane.{count_outcomes}
use merger.ControlPlane.Calibration.{Counts, count_outcomes-Counts}
use merger.Tests.Fixtures.{blank_packet}

abbrev rolled_back : DeploymentOutcome
rolled_back = record {
  id = lit "o1";
  change_packet_id = lit "cp";
  outcome = OutcomeKind.rollback;
  source = [];
  lane = MergeLane.green;
  risk_types = RiskType.schema ∷ [];
  observed_at = 1;
}

abbrev green : Str
green = 71 ∷ 82 ∷ 69 ∷ 69 ∷ 78 ∷ []

green_named : green ≢ []
green_named e = cc

count_outcomes-Counts_example :
    Counts green
      (rolled_back ∷ [])
      (count_outcomes (rolled_back ∷ []) [] []).0
      (count_outcomes (rolled_back ∷ []) [] []).1
      []
      []
count_outcomes-Counts_example = count_outcomes-Counts (rolled_back ∷ []) [] [] green green_named

abbrev workflow : ChangedFile
workflow = record {
  path = lit ".github/workflows/ci.yml";
  previous_path = [];
  language = lit "yaml";
  status = FileStatus.modified;
  additions = 1;
  deletions = 0;
  changes = 1;
  patch = lit "+x";
}

abbrev workflow_packet : ChangePacket
workflow_packet = record blank_packet { files = workflow ∷ workflow ∷ [] }

abbrev small_diff : Str
small_diff = lit "diff --git a/x b/x" ++ (10 ∷ lit "+++y")

small_diff_full : is_blank small_diff ≡ false
unfolding is_blank lit
small_diff_full = refl
