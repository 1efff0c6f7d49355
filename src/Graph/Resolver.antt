-- ===== src/Graph/Resolver.antt =====
-- internal/runtimegraph/resolver.go: NewResolver and ResolveImpact.
use merger.Prelude.{
  ℕ, Bool, true, false, not, ◌&&◌, List, [], ◌∷◌, ◌++◌, ◌==◌, nat_key, if◌then◌else◌, ltb, length,
  is_empty, Dict, put, Result, ok, ◌>>=◌,
}
use merger.Text.{Str, str_key, lit}
use merger.Domain.{Criticality, BlastRadius, SystemRef, OwnershipBoundary, RuntimeImpact}
use merger.Graph.{Fragment, Options, ResolutionInput, criticality_rank}
use merger.Graph.Traverse.{traverse_graph}
use merger.Graph.Sources.{Decoders, collect_topology, collect_owners, values}
use merger.Graph.Manifests.{GraphError, collect_manifests, collect_graph}

pub data Source : Type 0 where
  topology manifest graph_manifest code_owners : Source

abbrev pub source_if : Bool → Source → List Source
source_if true s = s ∷ []
source_if false s = []

unfoldable pub new_resolver : Options → List Source
new_resolver o =
    Source.topology
    ∷ Source.manifest
    ∷ (source_if (not (o.graph_manifest_path == [])) Source.graph_manifest
        ++ source_if o.enable_codeowners Source.code_owners)

-- The variables of the loop.
pub record Resolved : Type 0 where
  pub services : Dict Str SystemRef
  pub owners : Dict Str OwnershipBoundary
  pub criticality : Criticality
  pub notes : List Str

unfoldable pub index_systems : Dict Str SystemRef → List SystemRef → Dict Str SystemRef
unfolding put
index_systems index [] = index
index_systems index (s ∷ ss) = index_systems (put s.name s index) ss

unfoldable pub index_owners :
    Dict Str OwnershipBoundary → List OwnershipBoundary → Dict Str OwnershipBoundary
unfolding put
index_owners index [] = index
index_owners index (o ∷ os) = index_owners (put o.team o index) os

unfoldable pub promote : Criticality → Criticality → Criticality
unfolding criticality_rank
promote current candidate =
    if ltb (criticality_rank current) (criticality_rank candidate) then candidate else current

abbrev systems_taken : ResolutionInput → Fragment → Resolved → Resolved
systems_taken input f r =
    if not (is_empty f.edges) && not (is_empty f.affected)
    then (let found = traverse_graph f input.options.max_traversal_depth in
        record r {
          services = index_systems r.services found.systems;
          criticality = promote r.criticality found.criticality;
          notes = r.notes ++ found.notes;
        })
    else record r { services = index_systems r.services f.systems }

-- What the loop does with the fragment of a source.
unfoldable pub take_fragment : ResolutionInput → Resolved → Fragment → Resolved
unfolding index_systems index_owners promote traverse_graph
take_fragment input r f =
    let s = systems_taken input f r in
    record s {
      owners = index_owners s.owners f.ownership;
      criticality = promote s.criticality f.criticality;
      notes = s.notes ++ f.notes;
    }

unfoldable pub derive_blast_radius : ℕ → BlastRadius
derive_blast_radius n =
    if n == 0
    then BlastRadius.unknown
    else if n == 1
    then BlastRadius.isolated
    else BlastRadius.localized

abbrev or_note : List Str → List Str
or_note [] = lit "runtime graph sources did not find additional topology metadata" ∷ []
or_note (n ∷ ns) = n ∷ ns

abbrev pub nothing_resolved : Resolved
nothing_resolved = record {
  services = [];
  owners = [];
  criticality = Criticality.normal;
  notes = [];
}

module _ (d : Decoders) where
  unfoldable pub collect : Source → ResolutionInput → Result GraphError Fragment
  unfolding collect_topology collect_manifests collect_graph collect_owners
  collect Source.topology input = ok (collect_topology d.order input)
  collect Source.manifest input = ok (collect_manifests d input)
  collect Source.graph_manifest input = collect_graph d input
  collect Source.code_owners input = ok (collect_owners d.order input)

  unfoldable pub take_sources :
      ResolutionInput → List Source → Resolved → Result GraphError Resolved
  unfolding collect take_fragment
  take_sources input [] r = ok r
  take_sources input (s ∷ ss) r =
      collect s input >>= (λ f. take_sources input ss (take_fragment input r f))

  abbrev pub summary : Resolved → RuntimeImpact × List OwnershipBoundary
  summary r = (
    record {
      blast_radius = derive_blast_radius (length r.services);
      criticality = r.criticality;
      services = values d.order r.services;
      notes = or_note r.notes;
    },
    values d.order r.owners,
  )

  unfoldable pub resolve_impact :
      List Source → ResolutionInput → Result GraphError (RuntimeImpact × List OwnershipBoundary)
  unfolding take_sources derive_blast_radius lit
  resolve_impact sources input =
      take_sources input sources nothing_resolved >>= (λ r. ok (summary r))
