-- ===== src/ControlPlane/Outcomes.antt =====
-- service.go: deployment outcomes and the calibration report made of them. A rate is compared with
-- 0.20 and 0.05 by cross-multiplication, which the listed samples, 10000 at most, make exact.
use merger.Prelude.{
  ℕ, ◌+◌, ◌*◌, Bool, true, false, not, ◌&&◌, ◌||◌, List, [], ◌∷◌, map, Option, none, some, ltb, leb,
  ◌==◌, length, any, if◌then◌else◌, MapOrder, Dict, lookup, put, sort_by, nat_key, Result, ok, err,
}
use merger.Text.{Str, str_key, lit, is_blank, lt_str}
use merger.Domain.{ChangePacket, DeploymentOutcome, OutcomeKind, MergeLane, RiskType}
use merger.Store.{Repository, get_change_packet, save_deployment_outcome, list_deployment_outcomes}
use merger.ControlPlane.Errors.{ServiceError, Field, invalid, change_packet_not_found}

unfoldable pub valid_deployment_outcome : OutcomeKind → Bool
valid_deployment_outcome (OutcomeKind.other _) = false
valid_deployment_outcome _ = true

abbrev within : ℕ → ℕ → ℕ → Bool
within low high c = leb low c && leb c high

unfoldable pub source_character : ℕ → Bool
source_character c =
    within b'a' b'z' c
    || (within b'A' b'Z' c || (within b'0' b'9' c || (c == b'.' || (c == b'_' || c == b'-'))))

unfoldable pub valid_outcome_source : Str → Bool
unfolding source_character
valid_outcome_source source =
    leb (length source) 64 && not (any (λ c. not (source_character c)) source)

abbrev or_fresh : Str → Str → Str
or_fresh fresh [] = fresh
or_fresh fresh (c ∷ id) = c ∷ id

-- The outcome that is stored.
abbrev pub attributed_outcome : ℕ → Str → ChangePacket → DeploymentOutcome → DeploymentOutcome
attributed_outcome now fresh p o = record o {
  id = or_fresh fresh o.id;
  observed_at = if o.observed_at == 0 then now else o.observed_at;
  lane = p.merge_lane;
  risk_types = p.risk_summary.contributors;
}

unfoldable pub record_deployment_outcome :
    ℕ → Str → Repository → DeploymentOutcome → Result ServiceError DeploymentOutcome × Repository
unfolding valid_deployment_outcome valid_outcome_source
record_deployment_outcome now fresh r o =
    if is_blank o.change_packet_id
    then (err (invalid Field.change_packet_id), r)
    else if not (valid_deployment_outcome o.outcome)
    then (err (invalid Field.outcome), r)
    else if not (valid_outcome_source o.source)
    then (err (invalid Field.source), r)
    else elim (get_change_packet r o.change_packet_id) [
      | none ↦ (err change_packet_not_found, r)
      | some p ↦
          let stored = attributed_outcome now fresh p o in
          (ok stored, save_deployment_outcome r stored)
    ]

-- `calibrationCounter`.
pub record Counter : Type 0 where
  pub samples : ℕ
  pub adverse : ℕ

abbrev pub or_zero : Option Counter → Counter
or_zero none = record { samples = 0; adverse = 0 }
or_zero (some c) = c

abbrev pub is_adverse : OutcomeKind → Bool
is_adverse OutcomeKind.rollback = true
is_adverse OutcomeKind.incident = true
is_adverse _ = false

abbrev pub counted : Counter → DeploymentOutcome → Counter
counted c o = record {
  samples = c.samples + 1;
  adverse = c.adverse + (if is_adverse o.outcome then 1 else 0);
}

unfoldable pub add_calibration : Dict Str Counter → Str → DeploymentOutcome → Dict Str Counter
add_calibration counters [] o = counters
add_calibration counters (c ∷ key) o =
    put (c ∷ key) (counted (or_zero (lookup (c ∷ key) counters)) o) counters

-- `string(lane)` and `string(riskType)`.
unfoldable pub lane_text : MergeLane → Str
lane_text MergeLane.unset = []
lane_text MergeLane.green = lit "GREEN"
lane_text MergeLane.yellow = lit "YELLOW"
lane_text MergeLane.red = lit "RED"
lane_text MergeLane.black = lit "BLACK"
lane_text (MergeLane.other s) = s

unfoldable pub risk_type_text : RiskType → Str
risk_type_text RiskType.runtime = lit "runtime"
risk_type_text RiskType.security = lit "security"
risk_type_text RiskType.schema = lit "schema"
risk_type_text RiskType.dependency = lit "dependency"
risk_type_text RiskType.rollout = lit "rollout"
risk_type_text RiskType.ownership = lit "ownership"
risk_type_text RiskType.conflict = lit "conflict"
risk_type_text (RiskType.other s) = s

-- The inner loop, over the risk types of an outcome.
unfoldable pub add_risk_types :
    Dict Str Counter → List RiskType → DeploymentOutcome → Dict Str Counter
unfolding add_calibration
add_risk_types counters [] o = counters
add_risk_types counters (t ∷ ts) o =
    add_risk_types (add_calibration counters (risk_type_text t) o) ts o

-- The loop over the outcomes: the counters by lane and by risk type.
unfoldable pub count_outcomes :
    List DeploymentOutcome
    → Dict Str Counter
    → Dict Str Counter
    → Dict Str Counter × Dict Str Counter
unfolding add_risk_types add_calibration
count_outcomes [] by_lane by_risk = (by_lane, by_risk)
count_outcomes (o ∷ os) by_lane by_risk =
    count_outcomes os (add_calibration by_lane (lane_text o.lane) o)
      (add_risk_types by_risk o.risk_types o)

pub data Recommendation : Type 0 where
  collect_more review_weight no_change : Recommendation

unfoldable pub recommendation : Counter → Recommendation
recommendation c =
    if leb 5 c.samples && leb c.samples (5 * c.adverse)
    then Recommendation.review_weight
    else if leb 5 c.samples && ltb (20 * c.adverse) c.samples
    then Recommendation.no_change
    else Recommendation.collect_more

-- `RiskCalibrationMetric`; the rate is the quotient of its two numbers.
pub record Metric : Type 0 where
  pub value : Str
  pub counter : Counter
  pub advice : Recommendation

abbrev metric_of : Str × Counter → Metric
metric_of (value, c) = record { value = value; counter = c; advice = recommendation c }

abbrev by_value : Metric → Metric → Bool
by_value a b = lt_str a.value b.value

unfoldable pub calibration_metrics : MapOrder → Dict Str Counter → List Metric
unfolding recommendation
calibration_metrics order counters = sort_by by_value (map metric_of (order.iterate _ counters))

-- The metrics by risk type and by lane.
unfoldable pub risk_calibration_report : MapOrder → Repository → List Metric × List Metric
unfolding count_outcomes calibration_metrics
risk_calibration_report order r =
    let (by_lane, by_risk) = count_outcomes (list_deployment_outcomes r 10000) [] [] in
    (calibration_metrics order by_risk, calibration_metrics order by_lane)
