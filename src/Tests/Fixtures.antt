-- ===== src/Tests/Fixtures.antt =====
-- Inputs that the runs share.
use merger.Prelude.{pos, false, [], ◌∷◌}
use merger.Text.{lit}
use merger.Domain.{
  Severity, MutationKind, Criticality, BlastRadius, ConflictRoute, MergeLane, DecisionStatus,
  DeploymentStrategy, ChangePacket, Mutation, PolicyDecision,
}

abbrev pub no_decision : PolicyDecision
no_decision = record {
  status = DecisionStatus.approved;
  summary = [];
  reasons = [];
  violations = [];
  applied_policies = [];
  minimum_lane = MergeLane.unset;
  decided_at = 0;
}

abbrev pub blank_packet : ChangePacket
blank_packet = record {
  id = lit "cp";
  repo = record { owner = lit "o"; name = lit "r"; full_name = lit "o/r" };
  pr = record { number = pos 7; url = []; head_sha = lit "h"; base_sha = lit "b" };
  author = record { login = []; display_name = []; email = []; kind = [] };
  title = [];
  summary = [];
  source = [];
  files = [];
  mutations = [];
  risks = [];
  risk_summary = record { score = pos 0; severity = Severity.low; contributors = [] };
  conflict = record {
    base_sha = [];
    current_base_sha = [];
    route = ConflictRoute.none;
    score = pos 0;
    requires_human_resolution = false;
    findings = [];
    mitigations = [];
  };
  evidence = [];
  runtime = record {
    blast_radius = BlastRadius.isolated;
    criticality = Criticality.normal;
    services = [];
    notes = [];
  };
  ownership = [];
  reviewers = [];
  deployment = record {
    strategy = DeploymentStrategy.unset;
    environments = [];
    requires_canary = false;
    requires_rollback_plan = false;
  };
  merge_lane = MergeLane.unset;
  decision = no_decision;
  metadata = [];
  created_at = 1;
  updated_at = 1;
}

abbrev pub auth_change : Mutation
auth_change = record {
  id = [];
  kind = MutationKind.auth_behavior_change;
  severity = Severity.high;
  confidence = 900;
  title = lit "auth";
  description = [];
  files = lit "auth/login.go" ∷ [];
  signals = [];
  detector = [];
}

abbrev pub auth_packet : ChangePacket
auth_packet = record blank_packet { mutations = auth_change ∷ [] }
