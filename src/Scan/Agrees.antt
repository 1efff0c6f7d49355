-- ===== src/Scan/Agrees.antt =====
-- The scan and the ingestion give a packet the same fate.
use merger.Prelude.{◌≡◌, refl, sym, ap, ◌∙◌, ℤ, List, some, Result, ok, err, ◌>>=◌, true}
use merger.Text.{Str}
use merger.Domain.{ChangePacket, Mutation, RuntimeImpact, OwnershipBoundary}
use merger.Conflict
use merger.Risk
use merger.Policy
use merger.Graph.{Options, ResolutionInput}
use merger.Graph.Manifests.{GraphError}
use merger.Graph.Resolver.{new_resolver, resolve_impact}
use merger.Graph.Unread.{resolve_impact-unnamed}
use merger.Mutations.Engine.{classify}
use merger.Pipeline.{Engines, enrich_risk, judged, apply_policy, assign_merge_lane, decide}
use merger.Pipeline.Stages.{
  Processor, StageError, at_stage, impacted, no_options, enrich_mutations, enrich_runtime_impact,
  analyse,
}
use merger.Scan.{ScanOptions, Surroundings, loader_of, scan_sources, scan_packet}

-- A processor with the engines and the settings of the scan, and any settings of the graph manifest.
abbrev pub processor_of : Surroundings → ScanOptions → Str → ℤ → Processor
processor_of x o path depth = record {
  engines = record {
    order = x.order;
    weights = x.weights;
    policy = o.policy;
    lanes = o.lanes;
    now = x.ended;
  };
  mutations = x.mutations;
  ids = x.ids;
  decoders = x.decoders;
  resolver = new_resolver (record {
    enable_codeowners = o.enable_codeowners;
    graph_manifest_path = path;
    max_traversal_depth = depth;
  });
  has_store = true;
}

-- The conflicts do not depend on what is found at run time.
analyze-impacted :
    (x : Surroundings) (packet : ChangePacket) (r : RuntimeImpact × List OwnershipBoundary)
    → Conflict.analyze x.order (impacted packet r) ≡ Conflict.analyze x.order packet
unfolding Conflict.analyze
analyze-impacted x packet (impact, ownership) = refl

policy_stage :
    (v : Result Policy.PolicyError Policy.Evaluation) (g : Policy.Evaluation → ChangePacket)
    (h : ChangePacket → ChangePacket)
    → at_stage StageError.in_policy ((v >>= (λ ev. ok (g ev))) >>= (λ q. ok (h q)))
      ≡ (at_stage StageError.in_policy v >>= (λ ev. ok (h (g ev))))
policy_stage (ok ev) g h = refl
policy_stage (err e) g h = refl

graph_stage :
    (v : Result GraphError (RuntimeImpact × List OwnershipBoundary))
    (f k : RuntimeImpact × List OwnershipBoundary → Result StageError ChangePacket)
    → ((r : RuntimeImpact × List OwnershipBoundary) → f r ≡ k r)
    → (at_stage StageError.in_graph v >>= f) ≡ (at_stage StageError.in_graph v >>= k)
graph_stage (ok r) f k h = h r
graph_stage (err e) f k h = refl

mutation_stage :
    (v : Result Str (List Mutation)) (f k : List Mutation → Result StageError ChangePacket)
    → ((ms : List Mutation) → f ms ≡ k ms)
    → (at_stage StageError.in_mutations v >>= f) ≡ (at_stage StageError.in_mutations v >>= k)
mutation_stage (ok ms) f k h = h ms
mutation_stage (err e) f k h = refl

bind_assoc {ℓ κ} :
    {A : Type ℓ} {B : Type κ} (v : Result StageError A) (g : A → B)
    (k : B → Result StageError ChangePacket)
    → ((v >>= (λ a. ok (g a))) >>= k) ≡ (v >>= (λ a. k (g a)))
bind_assoc (ok a) g k = refl
bind_assoc (err e) g k = refl

module _ (x : Surroundings) (o : ScanOptions) (path : Str) (depth : ℤ) where
  abbrev engines : Engines
  engines = (processor_of x o path depth).engines

  abbrev placed : ChangePacket → RuntimeImpact × List OwnershipBoundary → ChangePacket
  placed found r = impacted (record found { conflict = Conflict.analyze x.order found }) r

  abbrev rated : ChangePacket → ChangePacket
  rated q =
      let (summary, risks) = Risk.evaluate x.order x.weights q in
      record q { risk_summary = summary; risks = risks }

  rated-placed :
      (found : ChangePacket) (r : RuntimeImpact × List OwnershipBoundary)
      → rated (placed found r) ≡ enrich_risk engines (impacted found r)
  unfolding enrich_risk
  rated-placed found (impact, ownership) =
      ap (λ c. rated (record found { runtime = impact; ownership = ownership; conflict = c }))
        (sym (analyze-impacted x found (impact, ownership)))

  decided :
      (found : ChangePacket) (r : RuntimeImpact × List OwnershipBoundary)
      → (at_stage StageError.in_policy (Policy.evaluate x.ended o.policy (rated (placed found r)))
          >>= (λ ev. ok (assign_merge_lane engines (judged (rated (placed found r)) ev))))
        ≡ at_stage StageError.in_policy (decide engines (impacted found r))
  unfolding decide apply_policy
  decided found r =
      ap
        (λ q.
          at_stage StageError.in_policy (Policy.evaluate x.ended o.policy q)
          >>= (λ ev. ok (assign_merge_lane engines (judged q ev))))
        (rated-placed found r)
      ∙ sym (
          policy_stage (Policy.evaluate x.ended o.policy (enrich_risk engines (impacted found r)))
            (judged (enrich_risk engines (impacted found r))) (assign_merge_lane engines))

  staged :
      (found : ChangePacket)
      → (at_stage StageError.in_graph (
            resolve_impact x.decoders
              (new_resolver (scan_sources o))
              (record { files = found.files; loader = some (loader_of x); options = no_options }))
          >>= (λ r.
              at_stage StageError.in_policy
                (Policy.evaluate x.ended o.policy (rated (placed found r)))
              >>= (λ ev. ok (assign_merge_lane engines (judged (rated (placed found r)) ev)))))
        ≡ (enrich_runtime_impact (processor_of x o path depth) (loader_of x) found
            >>= (λ q. at_stage StageError.in_policy (decide engines q)))
  unfolding enrich_runtime_impact
  staged found =
      let input : ResolutionInput = record {
        files = found.files;
        loader = some (loader_of x);
        options = no_options;
      } in
      let options : Options = record {
        enable_codeowners = o.enable_codeowners;
        graph_manifest_path = path;
        max_traversal_depth = depth;
      } in
      graph_stage (resolve_impact x.decoders (new_resolver (scan_sources o)) input) _ _
        (decided found)
      ∙ ap
          (λ v.
            at_stage StageError.in_graph v
            >>= (λ r. at_stage StageError.in_policy (decide engines (impacted found r))))
          (sym (resolve_impact-unnamed x.decoders options input refl))
      ∙ sym (
          bind_assoc
            (at_stage StageError.in_graph (resolve_impact x.decoders (new_resolver options) input))
            (impacted found) _)

  -- Whatever graph manifest the ingestion is configured with: the stages that it runs for a packet
  -- end as those of the scan do, with the same packet or the same error, if they have the same
  -- engines, settings and files, and the same fresh ids and time.
  pub scan_packet-as_ingested :
      (packet : ChangePacket)
      → scan_packet x o packet ≡ analyse (processor_of x o path depth) (loader_of x) packet
  unfolding scan_packet analyse enrich_mutations assign_merge_lane
  scan_packet-as_ingested packet =
      mutation_stage (classify x.order x.ids x.mutations x.load packet.files) _ _
        (λ ms. staged (record packet { mutations = ms }))
      ∙ sym (
          bind_assoc
            (at_stage StageError.in_mutations
              (classify x.order x.ids x.mutations x.load packet.files))
            (λ ms. record packet { mutations = ms }) _)
