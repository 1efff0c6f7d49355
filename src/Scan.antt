-- ===== src/Scan.antt =====
-- internal/scan/scan.go: the offline scan of a diff.
pub mod Agrees
use merger.Prelude.{
  ℕ, ℤ, pos, Bool, true, false, List, [], ◌∷◌, Option, none, some, ◌==◌, if◌then◌else◌, Result, ok,
  err, ◌>>=◌, MapOrder,
}
use merger.Text.{Str, str_key, lit}
use merger.Domain.{ChangePacket, RepoRef, Author, MutationKind}
use merger.Diff
use merger.Conflict
use merger.Risk
use merger.Policy
use merger.Lanes
use merger.Graph.{ContentLoader, Options}
use merger.Graph.Sources.{Decoders, content_or_empty}
use merger.Graph.Resolver.{new_resolver, resolve_impact}
use merger.Mutations.Engine.{RuleBasedEngine, classify}
use merger.Pipeline.Stages.{StageError, Origin, new_packet, at_stage, impacted, no_options}

-- `Options`, but for the root of the repository, in place of which stands the loader.
pub record ScanOptions : Type 0 where
  pub diff : Str
  pub repo : RepoRef
  pub ref : Str
  pub base_sha : Str
  pub current_base_sha : Str
  pub title : Str
  pub author : Author
  pub policy : Policy.Config
  pub lanes : Lanes.Config
  pub enable_codeowners : Bool

-- What the run takes from its surroundings: the default engines, fresh ids, the files below the root,
-- where a file that cannot be read is empty, the time at the start and at the end.
pub record Surroundings : Type 1 where
  pub order : MapOrder
  pub weights : MutationKind → ℤ
  pub mutations : RuleBasedEngine
  pub ids : ℕ → Str
  pub decoders : Decoders
  pub load : Str → Str
  pub id : Str
  pub started : ℕ
  pub ended : ℕ

abbrev pub scan_origin : Surroundings → ScanOptions → Origin
scan_origin x o = record {
  id = x.id;
  repo = o.repo;
  pr = record { number = pos 0; url = []; head_sha = o.ref; base_sha = o.base_sha };
  author = o.author;
  title = o.title;
  summary = [];
  source = lit "cli.scan";
  metadata =
      if o.current_base_sha == [] then [] else (lit "current_base_sha", o.current_base_sha) ∷ [];
  now = x.started;
}

-- The loader never fails.
abbrev pub loader_of : Surroundings → ContentLoader
loader_of x path = some (x.load path)

abbrev pub scan_sources : ScanOptions → Options
scan_sources o = record no_options { enable_codeowners = o.enable_codeowners }

-- `Run` from the packet on: mutations, conflict, runtime impact, risk, policy, lane.
unfoldable pub scan_packet :
    Surroundings → ScanOptions → ChangePacket → Result StageError ChangePacket
unfolding classify Conflict.analyze resolve_impact new_resolver Risk.evaluate Policy.evaluate
    Lanes.assign
scan_packet x o packet =
    at_stage StageError.in_mutations (classify x.order x.ids x.mutations x.load packet.files)
    >>= (λ mutations.
        let found = record packet { mutations = mutations } in
        let assessed = record found { conflict = Conflict.analyze x.order found } in
        at_stage StageError.in_graph (
          resolve_impact x.decoders (new_resolver (scan_sources o))
            (record { files = assessed.files; loader = some (loader_of x); options = no_options }))
        >>= (λ r.
            let placed = impacted assessed r in
            let (summary, risks) = Risk.evaluate x.order x.weights placed in
            let rated = record placed { risk_summary = summary; risks = risks } in
            at_stage StageError.in_policy (Policy.evaluate x.ended o.policy rated) >>= (λ ev.
              let judged = record rated {
                decision = ev.decision;
                evidence = ev.evidence;
                reviewers = ev.reviewers;
                deployment = ev.deployment;
              } in
              ok (record judged {
                merge_lane = Lanes.assign o.lanes judged;
                updated_at = x.ended;
              }))))

unfoldable pub run : Surroundings → ScanOptions → Result StageError ChangePacket
unfolding Diff.parse_unified new_packet scan_packet lit
run x o = scan_packet x o (new_packet (scan_origin x o) (Diff.parse_unified o.diff))
