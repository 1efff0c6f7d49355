-- ===== src/Graph/Manifests.antt =====
-- internal/runtimegraph: the sources that read manifests (source_manifest.go and
-- source_graph_manifest.go).
use merger.Prelude.{
  Bool, ◌||◌, List, [], ◌∷◌, ◌++◌, Option, none, some, ◌==◌, any, if◌then◌else◌, is_empty, Result,
  ok, err,
}
use merger.Text.{Str, str_key, lit, has_prefix, trim_suffix, to_lower}
use merger.Mutations.Paths.{ext}
use merger.Domain.{SystemRef, ChangedFile}
use merger.Graph.{Fragment, ContentLoader, ResolutionInput}
use merger.Graph.Sources.{
  Decoders, GraphManifest, GraphManifestNode, no_fragment, service_system, content_or_empty,
}

pub data GraphError : Type 0 where
  bad_graph_manifest : GraphError

system_named : Option (Str × Str) → Option SystemRef
unfolding to_lower lit
system_named none = none
system_named (some (kind, name)) =
    let lower = to_lower kind in
    if kind == [] || name == []
    then none
    else if lower == lit "service" || (lower == lit "deployment" || lower == lit "statefulset")
    then some (service_system name)
    else none

abbrev add_manifest : Option SystemRef → Fragment → Fragment
add_manifest none f = f
add_manifest (some s) f = record f {
  systems = f.systems ++ s ∷ [];
  notes = f.notes ++ lit "manifest source extracted runtime objects from deploy manifests" ∷ [];
}

unfoldable pub is_yaml : Str → Bool
unfolding to_lower ext lit
is_yaml path = let e = to_lower (ext path) in e == lit ".yaml" || e == lit ".yml"

noted_graph : Fragment → Fragment
noted_graph f = if is_empty f.affected then f else record f {
  notes = f.notes ++ lit "graph manifest resolved transitive runtime dependencies" ∷ [];
}

module _ (d : Decoders) where
  unfoldable pub parse_manifest_system : Str → Option SystemRef
  unfolding system_named
  parse_manifest_system content = system_named (d.manifest content)

  manifest_of : Option ContentLoader → Str → Option SystemRef
  unfolding parse_manifest_system
  manifest_of none path = none
  manifest_of (some load) path =
      let content = content_or_empty (load path) in
      if content == [] then none else parse_manifest_system content

  unfoldable pub add_manifests : Option ContentLoader → List ChangedFile → Fragment → Fragment
  unfolding manifest_of is_yaml lit
  add_manifests loader [] fragment = fragment
  add_manifests loader (f ∷ fs) fragment =
      add_manifests loader fs
        (if is_yaml f.path then add_manifest (manifest_of loader f.path) fragment else fragment)

  unfoldable pub collect_manifests : ResolutionInput → Fragment
  unfolding add_manifests
  collect_manifests input = add_manifests input.loader input.files no_fragment

  unfoldable pub matches_graph_path : List Str → Str → Bool
  unfolding has_prefix trim_suffix lit
  matches_graph_path patterns path =
      any (λ pattern. d.glob pattern path || has_prefix path (trim_suffix pattern (lit "/**")))
        patterns

  unfoldable pub add_node : List ChangedFile → GraphManifestNode → Fragment → Fragment
  unfolding matches_graph_path lit
  add_node files n f = if n.id == [] || n.name == [] then f else record f {
    nodes =
        f.nodes
        ++ record {
          id = n.id;
          kind = n.kind;
          name = n.name;
          namespace = [];
          owner = n.owner;
          criticality = n.criticality;
          metadata = [];
        }
          ∷ [];
    systems =
        f.systems
        ++ record {
          kind = lit "service";
          name = n.name;
          owner = n.owner;
          criticality = n.criticality;
        }
          ∷ [];
    affected =
        if any (λ file. matches_graph_path n.paths file.path) files
        then f.affected ++ n.id ∷ []
        else f.affected;
  }

  unfoldable pub add_nodes : List ChangedFile → List GraphManifestNode → Fragment → Fragment
  unfolding add_node
  add_nodes files [] f = f
  add_nodes files (n ∷ ns) f = add_nodes files ns (add_node files n f)

  graph_fragment : List ChangedFile → Option GraphManifest → Result GraphError Fragment
  unfolding add_nodes noted_graph lit
  graph_fragment files none = err GraphError.bad_graph_manifest
  graph_fragment files (some m) =
      ok (noted_graph (add_nodes files m.nodes (record no_fragment { edges = m.edges })))

  graph_from : ResolutionInput → Option ContentLoader → Result GraphError Fragment
  unfolding graph_fragment
  graph_from input none = ok no_fragment
  graph_from input (some load) =
      let content = content_or_empty (load input.options.graph_manifest_path) in
      if content == [] then ok no_fragment else graph_fragment input.files (d.graph content)

  unfoldable pub collect_graph : ResolutionInput → Result GraphError Fragment
  unfolding graph_from
  collect_graph input =
      if input.options.graph_manifest_path == []
      then ok no_fragment
      else graph_from input input.loader
