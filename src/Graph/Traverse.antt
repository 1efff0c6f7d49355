-- ===== src/Graph/Traverse.antt =====
-- internal/runtimegraph/source_graph_manifest.go: `traverseGraph`.
use merger.Prelude.{
  ℕ, zero, suc, ◌+◌, ◌*◌, ℤ, pos, negsuc, Bool, List, [], ◌∷◌, ◌++◌, Option, none, some, ◌==◌, any,
  if◌then◌else◌, ltb, leb, length, Dict, lookup, put,
}
use merger.Text.{Str, str_key, lit}
use merger.Domain.{Criticality, SystemRef}
use merger.Graph.{Node, Edge, Fragment, criticality_rank}

abbrev pub member : Str → List Str → Bool
member s xs = any (λ x. x == s) xs

abbrev pub system_of : Node → SystemRef
system_of n = record {
  kind = lit "service";
  name = n.name;
  owner = n.owner;
  criticality = n.criticality;
}

-- The map `nodes`: the last node of an id counts.
unfoldable pub index_nodes : Dict Str SystemRef → List Node → Dict Str SystemRef
unfolding put lit
index_nodes index [] = index
index_nodes index (n ∷ ns) = index_nodes (put n.id (system_of n) index) ns

abbrev pub or_empty : Option (List Str) → List Str
or_empty none = []
or_empty (some ids) = ids

unfoldable pub neighbours : Dict Str (List Str) → Str → List Str
unfolding lookup
neighbours adjacency id = or_empty (lookup id adjacency)

abbrev pub join_to : Str → Str → Dict Str (List Str) → Dict Str (List Str)
join_to from to adjacency = put from (neighbours adjacency from ++ to ∷ []) adjacency

-- The map `adjacency`: each edge is followed both ways.
unfoldable pub adjacency_of : Dict Str (List Str) → List Edge → Dict Str (List Str)
unfolding put neighbours
adjacency_of adjacency [] = adjacency
adjacency_of adjacency (e ∷ es) =
    adjacency_of (join_to e.to e.from (join_to e.from e.to adjacency)) es

-- The variables of the loop.
pub record Walk : Type 0 where
  pub queue : List Str
  pub visited : List Str
  pub depth : Dict Str ℕ
  pub systems : List SystemRef
  pub criticality : Criticality

abbrev pub or_zero : Option ℕ → ℕ
or_zero none = 0
or_zero (some n) = n

unfoldable pub depth_of : Walk → Str → ℕ
unfolding lookup
depth_of w id = or_zero (lookup id w.depth)

-- The body of the inner loop.
unfoldable pub offer : Str → Walk → Str → Walk
unfolding put depth_of
offer id w next = if member next w.visited then w else record w {
  visited = next ∷ w.visited;
  depth = put next (depth_of w id + 1) w.depth;
  queue = w.queue ++ next ∷ [];
}

unfoldable pub offer_all : Str → Walk → List Str → Walk
unfolding offer
offer_all id w [] = w
offer_all id w (next ∷ nexts) = offer_all id (offer id w next) nexts

abbrev pub add_system : Option SystemRef → Walk → Walk
add_system none w = w
add_system (some s) w = record w {
  systems = w.systems ++ s ∷ [];
  criticality =
      if ltb (criticality_rank w.criticality) (criticality_rank s.criticality)
      then s.criticality
      else w.criticality;
}

module _ (nodes : Dict Str SystemRef) (adjacency : Dict Str (List Str)) (max_depth : ℕ) where
  -- One round, for the id at the head of the queue.
  unfoldable pub expand : Walk → Str → List Str → Walk
  unfolding lookup neighbours depth_of offer_all criticality_rank
  expand w id rest =
      let seen = add_system (lookup id nodes) (record w { queue = rest }) in
      if leb max_depth (depth_of w id) then seen else offer_all id seen (neighbours adjacency id)

  -- The loop, with fuel.
  unfoldable pub loop : ℕ → Walk → Walk
  unfolding expand
  loop zero w = w
  loop (suc fuel) w = elim w.queue [ [] ↦ w | id ∷ rest ↦ loop fuel (expand w id rest) ]

-- A depth that is not positive stands for 3.
unfoldable pub depth_limit : ℤ → ℕ
depth_limit (pos zero) = 3
depth_limit (pos (suc n)) = suc n
depth_limit (negsuc n) = 3

abbrev pub start : List Str → Walk
start affected = record {
  queue = affected;
  visited = affected;
  depth = [];
  systems = [];
  criticality = Criticality.unset;
}

-- Each round takes an id from the queue, which gets the affected ids and each end of an edge at
-- most once.
unfoldable pub walk_graph : Fragment → ℤ → Walk
unfolding index_nodes adjacency_of loop depth_limit
walk_graph f max_depth =
    loop (index_nodes [] f.nodes) (adjacency_of [] f.edges) (depth_limit max_depth)
      (length f.affected + 2 * length f.edges) (start f.affected)

unfoldable pub traverse_graph : Fragment → ℤ → Fragment
unfolding walk_graph
traverse_graph f max_depth =
    let w = walk_graph f max_depth in
    record {
      nodes = [];
      edges = [];
      systems = w.systems;
      ownership = [];
      notes = f.notes;
      criticality = w.criticality;
      affected = [];
    }
