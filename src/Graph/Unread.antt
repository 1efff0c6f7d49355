-- ===== src/Graph/Unread.antt =====
-- A graph manifest that the input of a resolution does not name is not read.
use merger.Prelude.{◌≡◌, refl, ap, List, [], ◌∷◌, ◌==◌, Bool-cases, inl, inr, pos, ok, ◌>>=◌, arith}
use mathlib.Core.List.{append-nil}
use merger.Text.{str_key}
use merger.Domain.{Criticality}
use merger.Graph.{Options, ResolutionInput, criticality_rank}
use merger.Graph.Sources.{Decoders, no_fragment, collect_topology}
use merger.Graph.Manifests.{collect_graph, collect_manifests}
use merger.Graph.Resolver.{
  Source, source_if, new_resolver, Resolved, promote, index_systems, index_owners, collect,
  take_fragment, take_sources, resolve_impact, summary, nothing_resolved,
}

promote-unset : (c : Criticality) → promote c Criticality.unset ≡ c
unfolding promote criticality_rank
promote-unset c = ground arith

-- A source that collects nothing changes nothing.
take_fragment-no_fragment :
    (input : ResolutionInput) (r : Resolved) → take_fragment input r no_fragment ≡ r
unfolding take_fragment index_systems index_owners
take_fragment-no_fragment input r = rw (promote-unset r.criticality, append-nil r.notes) refl

collect_graph-unnamed :
    (d : Decoders) (input : ResolutionInput)
    → input.options.graph_manifest_path ≡ []
    → collect d Source.graph_manifest input ≡ ok no_fragment
unfolding collect collect_graph
collect_graph-unnamed d input e = rw e refl

take_sources-graph :
    (d : Decoders) (input : ResolutionInput) (rest : List Source) (r : Resolved)
    → input.options.graph_manifest_path ≡ []
    → take_sources d input (Source.graph_manifest ∷ rest) r ≡ take_sources d input rest r
unfolding take_sources
take_sources-graph d input rest r e =
    rw (collect_graph-unnamed d input e)
      (ap (take_sources d input rest) (take_fragment-no_fragment input r))

-- Whatever path and depth the resolver is made with: where the input names no graph manifest, the
-- result is that of a resolver without one.
pub resolve_impact-unnamed :
    (d : Decoders) (o : Options) (input : ResolutionInput)
    → input.options.graph_manifest_path ≡ []
    → resolve_impact d (new_resolver o) input
      ≡ resolve_impact d
          (new_resolver (record o { graph_manifest_path = []; max_traversal_depth = pos 0 }))
          input
unfolding resolve_impact new_resolver
resolve_impact-unnamed d o input e =
    ap (λ r. r >>= (λ x. ok (summary d x)))
      (elim (Bool-cases (o.graph_manifest_path == [])) [
        | inl none_made ↦ rw none_made refl
        | inr made ↦ rw made (
            take_sources-graph d input (source_if o.enable_codeowners Source.code_owners)
              (take_fragment input
                (take_fragment input nothing_resolved (collect_topology d.order input))
                (collect_manifests d input))
              e)
      ])
