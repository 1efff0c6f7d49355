-- ===== src/Pipeline/Stages.antt =====
-- internal/ingest/workflow.go, change_packet.go and stages.go: from a webhook on a pull request to
-- the packet. GitHub's service, the event bus and the external analyzers are parameters.
use merger.Prelude.{
  ℕ, ℤ, pos, Bool, false, List, [], ◌∷◌, Option, none, some, Result, ok, err, ◌>>=◌,
}
use merger.Text.{Str, lit, trim_space}
use merger.Domain.{
  ChangePacket, Severity, BlastRadius, Criticality, ConflictRoute, MergeLane, DecisionStatus,
  DeploymentStrategy, RepoRef, PullRequestRef, Author, RuntimeImpact, OwnershipBoundary,
}
use merger.Diff
use merger.Policy
use merger.Graph.{ContentLoader, Options}
use merger.Graph.Sources.{Decoders, content_or_empty}
use merger.Graph.Manifests.{GraphError}
use merger.Graph.Resolver.{Source, resolve_impact}
use merger.Mutations.Engine.{RuleBasedEngine, classify}
use merger.Pipeline.{Engines, decide}
use merger.Pipeline.Files.{map_changed_files}

-- The parts of a processor. `ids` are the fresh ids that the mutation engine draws.
pub record Processor : Type 1 where
  pub engines : Engines
  pub mutations : RuleBasedEngine
  pub ids : ℕ → Str
  pub decoders : Decoders
  pub resolver : List Source
  pub has_store : Bool

pub data StageError : Type 0 where
  no_diff : StageError
  in_mutations : Str → StageError
  in_graph : GraphError → StageError
  in_policy : Policy.PolicyError → StageError
  in_event in_effect : Str → StageError

abbrev pub at_stage {ℓ κ} :
    {E : Type ℓ} {A : Type κ} → (E → StageError) → Result E A → Result StageError A
at_stage f (ok a) = ok a
at_stage f (err e) = err (f e)

unfoldable pub enrich_mutations :
    Processor → ContentLoader → ChangePacket → Result StageError ChangePacket
unfolding classify
enrich_mutations p load packet =
    at_stage StageError.in_mutations (
      classify p.engines.order p.ids p.mutations (λ path. content_or_empty (load path))
        packet.files)
    >>= (λ mutations. ok (record packet { mutations = mutations }))

-- The stage gives the resolver no options: the zero value stands for them.
abbrev pub no_options : Options
no_options = record {
  enable_codeowners = false;
  graph_manifest_path = [];
  max_traversal_depth = pos 0;
}

abbrev pub impacted : ChangePacket → RuntimeImpact × List OwnershipBoundary → ChangePacket
impacted packet (impact, ownership) = record packet { runtime = impact; ownership = ownership }

unfoldable pub enrich_runtime_impact :
    Processor → ContentLoader → ChangePacket → Result StageError ChangePacket
unfolding resolve_impact
enrich_runtime_impact p load packet =
    at_stage StageError.in_graph (
      resolve_impact p.decoders p.resolver
        (record { files = packet.files; loader = some load; options = no_options }))
    >>= (λ r. ok (impacted packet r))

-- The stages of a packet up to its lane, without the events between them.
unfoldable pub analyse : Processor → ContentLoader → ChangePacket → Result StageError ChangePacket
unfolding enrich_mutations enrich_runtime_impact decide
analyse p load packet = enrich_mutations p load packet >>= (λ m.
    enrich_runtime_impact p load m >>= (λ r. at_stage StageError.in_policy (decide p.engines r)))

-- What GitHub delivers and gives back. A pull request that cannot be fetched is `none`, and so is a
-- diff.
pub record PullRequest : Type 0 where
  pub number : ℤ
  pub title : Str
  pub body : Str
  pub author : Str
  pub url : Str
  pub head_sha : Str
  pub base_sha : Str

pub record Webhook : Type 0 where
  pub repo_owner : Str
  pub repo_name : Str
  pub full_name : Str
  pub user_kind : Str
  pub pull_request : PullRequest
  -- The id of the installation in decimal.
  pub installation_id : Str

pub record Service : Type 0 where
  pub get_pull_request : Str → Str → ℤ → Option PullRequest
  pub get_pull_request_diff : Str → Str → ℤ → Option Str
  pub get_file_content : Str → Str → Str → Str → Option Str

abbrev or_payload : PullRequest → Option PullRequest → PullRequest
or_payload payload none = payload
or_payload payload (some pr) = pr

unfoldable pub fetch_pull_request : Service → Webhook → PullRequest
fetch_pull_request s w =
    or_payload w.pull_request (s.get_pull_request w.repo_owner w.repo_name w.pull_request.number)

-- A packet of which only this much is known; every other field has the zero value of Go.
pub record Origin : Type 0 where
  pub id : Str
  pub repo : RepoRef
  pub pr : PullRequestRef
  pub author : Author
  pub title : Str
  pub summary : Str
  pub source : Str
  pub metadata : List (Str × Str)
  pub now : ℕ

unfoldable pub new_packet : Origin → List Diff.File → ChangePacket
unfolding map_changed_files
new_packet o files = record {
  id = o.id;
  repo = o.repo;
  pr = o.pr;
  author = o.author;
  title = o.title;
  summary = o.summary;
  source = o.source;
  files = map_changed_files files;
  mutations = [];
  risks = [];
  risk_summary = record { score = pos 0; severity = Severity.other []; contributors = [] };
  conflict = record {
    base_sha = [];
    current_base_sha = [];
    route = ConflictRoute.unset;
    score = pos 0;
    requires_human_resolution = false;
    findings = [];
    mitigations = [];
  };
  evidence = [];
  runtime = record {
    blast_radius = BlastRadius.unset;
    criticality = Criticality.unset;
    services = [];
    notes = [];
  };
  ownership = [];
  reviewers = [];
  deployment = record {
    strategy = DeploymentStrategy.direct;
    environments = [];
    requires_canary = false;
    requires_rollback_plan = false;
  };
  merge_lane = MergeLane.yellow;
  decision = record {
    status = DecisionStatus.pending;
    summary = [];
    reasons = [];
    violations = [];
    applied_policies = [];
    minimum_lane = MergeLane.unset;
    decided_at = 0;
  };
  metadata = o.metadata;
  created_at = o.now;
  updated_at = o.now;
}

-- `id` and `correlation` are those of the run.
abbrev pub webhook_origin : Str → Str → ℕ → Webhook → PullRequest → Origin
webhook_origin id correlation now w pr = record {
  id = id;
  repo = record { owner = w.repo_owner; name = w.repo_name; full_name = w.full_name };
  pr = record { number = pr.number; url = pr.url; head_sha = pr.head_sha; base_sha = pr.base_sha };
  author = record { login = pr.author; display_name = []; email = []; kind = w.user_kind };
  title = pr.title;
  summary = trim_space pr.body;
  source = lit "github.pull_request";
  metadata = (lit "correlation_id", correlation) ∷ (lit "installation_id", w.installation_id) ∷ [];
  now = now;
}
