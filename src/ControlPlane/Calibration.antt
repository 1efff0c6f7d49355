-- ===== src/ControlPlane/Calibration.antt =====
-- service.go: what the calibration report counts.
use merger.Prelude.{
  ℕ, ◌+◌, ◌≡◌, ◌≢◌, Bool, List, [], ◌∷◌, ◌==◌, if◌then◌else◌, Dict, lookup, lookup-put, arith,
  sum_by, eq→≡,
}
use merger.Text.{Str, str_key}
use merger.Domain.{DeploymentOutcome, RiskType}
use merger.ControlPlane.Outcomes.{
  Counter, or_zero, is_adverse, counted, add_calibration, lane_text, risk_type_text, add_risk_types,
  count_outcomes,
}

-- The counter of a value.
abbrev pub counter_of : Str → Dict Str Counter → Counter
counter_of v m = or_zero (lookup v m)

abbrev pub one_if : Bool → ℕ
one_if b = if b then 1 else 0

-- What one outcome adds to the counter of `v` under the key `k`: a sample, and an adverse one.
abbrev pub hit : Str → Str → ℕ
hit v k = one_if (k == v)

abbrev pub adverse_hit : Str → Str → DeploymentOutcome → ℕ
adverse_hit v k o = if is_adverse o.outcome then hit v k else 0

add_calibration-samples :
    (m : Dict Str Counter) (k v : Str) (o : DeploymentOutcome)
    → v ≢ []
    → (counter_of v (add_calibration m k o)).samples ≡ (counter_of v m).samples + hit v k
unfolding add_calibration
add_calibration-samples m [] v o n = ground (arith, eq→≡ [] v)
add_calibration-samples m (c ∷ k) v o n =
    ground (arith, lookup-put (c ∷ k) v (counted (or_zero (lookup (c ∷ k) m)) o) m, eq→≡ (c ∷ k) v)

add_calibration-adverse :
    (m : Dict Str Counter) (k v : Str) (o : DeploymentOutcome)
    → v ≢ []
    → (counter_of v (add_calibration m k o)).adverse ≡ (counter_of v m).adverse + adverse_hit v k o
unfolding add_calibration
add_calibration-adverse m [] v o n = ground (arith, eq→≡ [] v)
add_calibration-adverse m (c ∷ k) v o n =
    ground (arith, lookup-put (c ∷ k) v (counted (or_zero (lookup (c ∷ k) m)) o) m, eq→≡ (c ∷ k) v)

add_risk_types-samples :
    (m : Dict Str Counter) (ts : List RiskType) (v : Str) (o : DeploymentOutcome)
    → v ≢ []
    → (counter_of v (add_risk_types m ts o)).samples
      ≡ (counter_of v m).samples + sum_by (λ t. hit v (risk_type_text t)) ts
unfolding add_risk_types
add_risk_types-samples m [] v o n = omega arith
add_risk_types-samples m (t ∷ ts) v o n = omega (
  arith,
  add_risk_types-samples (add_calibration m (risk_type_text t) o) ts v o n,
  add_calibration-samples m (risk_type_text t) v o n,
)

add_risk_types-adverse :
    (m : Dict Str Counter) (ts : List RiskType) (v : Str) (o : DeploymentOutcome)
    → v ≢ []
    → (counter_of v (add_risk_types m ts o)).adverse
      ≡ (counter_of v m).adverse + sum_by (λ t. adverse_hit v (risk_type_text t) o) ts
unfolding add_risk_types
add_risk_types-adverse m [] v o n = omega arith
add_risk_types-adverse m (t ∷ ts) v o n = omega (
  arith,
  add_risk_types-adverse (add_calibration m (risk_type_text t) o) ts v o n,
  add_calibration-adverse m (risk_type_text t) v o n,
)

-- What the report counts for `v`, over all outcomes.
pub record Counts (v : Str) (os : List DeploymentOutcome)
    (by_lane by_risk lane0 risk0 : Dict Str Counter) : Type 0 where
  pub lane_samples :
      (counter_of v by_lane).samples
      ≡ (counter_of v lane0).samples + sum_by (λ o. hit v (lane_text o.lane)) os
  pub lane_adverse :
      (counter_of v by_lane).adverse
      ≡ (counter_of v lane0).adverse + sum_by (λ o. adverse_hit v (lane_text o.lane) o) os
  pub risk_samples :
      (counter_of v by_risk).samples
      ≡ (counter_of v risk0).samples
        + sum_by (λ o. sum_by (λ t. hit v (risk_type_text t)) o.risk_types) os
  pub risk_adverse :
      (counter_of v by_risk).adverse
      ≡ (counter_of v risk0).adverse
        + sum_by (λ o. sum_by (λ t. adverse_hit v (risk_type_text t) o) o.risk_types) os

-- For every value but the empty one, the counters of the report hold what was counted before, and
-- one sample for each outcome with that lane, or for each risk type of an outcome, that has the
-- value for its text, and an adverse one where the outcome is a rollback or an incident.
pub count_outcomes-Counts :
    (os : List DeploymentOutcome) (by_lane by_risk : Dict Str Counter) (v : Str)
    → v ≢ []
    → Counts v os
        (count_outcomes os by_lane by_risk).0
        (count_outcomes os by_lane by_risk).1
        by_lane
        by_risk
unfolding count_outcomes
count_outcomes-Counts [] l r v n = record {
  lane_samples = omega arith;
  lane_adverse = omega arith;
  risk_samples = omega arith;
  risk_adverse = omega arith;
}
count_outcomes-Counts (o ∷ os) l r v n =
    let rest =
      count_outcomes-Counts os (add_calibration l (lane_text o.lane) o)
        (add_risk_types r o.risk_types o) v n in
    record {
      lane_samples =
          omega (arith, rest.lane_samples, add_calibration-samples l (lane_text o.lane) v o n);
      lane_adverse =
          omega (arith, rest.lane_adverse, add_calibration-adverse l (lane_text o.lane) v o n);
      risk_samples = omega (arith, rest.risk_samples, add_risk_types-samples r o.risk_types v o n);
      risk_adverse = omega (arith, rest.risk_adverse, add_risk_types-adverse r o.risk_types v o n);
    }
