-- ===== src/Tests/GraphRuns.antt =====
-- Runs of the runtime graph.
use merger.Prelude.{◌≡◌, ◌↔◌, refl, pos, false, [], ◌∷◌}
use mathlib.Core.List.{Memᴰ}
use merger.Text.{lit}
use merger.Domain.{Criticality}
use merger.Graph.{Node, Edge, NodeKind, EdgeType, Fragment}
use merger.Graph.Traverse.{system_of, depth_limit, walk_graph, traverse_graph}
use merger.Graph.Reach.{IsWithin, traverse_graph-reaches}
use merger.Text.{Str}

abbrev node : Str → Criticality → Node
node name criticality = record {
  id = name;
  kind = NodeKind.service;
  name = name;
  namespace = [];
  owner = [];
  criticality = criticality;
  metadata = [];
}

abbrev edge : Str → Str → Edge
edge from to = record {
  from = from;
  to = to;
  kind = EdgeType.calls;
  critical = false;
  directional = false;
  metadata = [];
}

-- a — b — c, and the change affects a.
abbrev chain : Fragment
chain = record {
  nodes =
      node (lit "a") Criticality.normal
      ∷ node (lit "b") Criticality.tier0
      ∷ node (lit "c") Criticality.high
      ∷ [];
  edges = edge (lit "a") (lit "b") ∷ edge (lit "b") (lit "c") ∷ [];
  systems = [];
  ownership = [];
  notes = [];
  criticality = Criticality.unset;
  affected = lit "a" ∷ [];
}

two_found :
    (traverse_graph chain (pos 1)).systems
    ≡ system_of (node (lit "a") Criticality.normal)
      ∷ system_of (node (lit "b") Criticality.tier0)
      ∷ []
unfolding traverse_graph
two_found = refl

traverse_graph-reaches_example :
    ((walk_graph chain (pos 1)).queue ≡ [])
    × (Memᴰ (system_of (node (lit "b") Criticality.tier0)) (traverse_graph chain (pos 1)).systems
        ↔ IsWithin chain (depth_limit (pos 1)) (system_of (node (lit "b") Criticality.tier0)))
traverse_graph-reaches_example =
    traverse_graph-reaches chain (pos 1) (system_of (node (lit "b") Criticality.tier0))
