-- ===== src/Graph/Reach.antt =====
-- What the traversal of the graph finds.
use merger.Prelude.{
  ◌≡◌, ◌⊎◌, ◌↔◌, refl, sym, ap, ◌∙◌, ℕ, zero, suc, ◌+◌, ◌*◌, ◌≤◌, ℤ, true, List, [], ◌∷◌, some, inl,
  inr, eq_refl, Dict, lookup, length, arith,
}
use mathlib.Core.Path.{subst}
use mathlib.Core.List.{Memᴰ}
use mathlib.Core.List.Memᴰ
use merger.Text.{Str, str_key}
use merger.Domain.{SystemRef}
use merger.Graph.{Edge, Fragment}
use merger.Graph.Traverse.{
  member, adjacency_of, index_nodes, Walk, depth_of, expand, loop, depth_limit, start, walk_graph,
  traverse_graph,
}
use merger.Graph.Links.{ends, linked-ends, unseen, unseen-le}
use merger.Graph.Offer.{rounds, offer_all-rounds}
use merger.Graph.Invariant.{Way, here, step, Ordered, Near-of, Inv}
use merger.Graph.Preserve.{Inv-expanded}
use merger.Graph.Round.{
  seen, nexts, after, expand-offer_all, member-nexts, seen-visited, seen-queue, Offered-after,
  Expanded-after,
}
use merger.Graph.Collect.{Collected, Collected-after}

module _ (nodes : Dict Str SystemRef) (edges : List Edge) (affected : List Str) (limit : ℕ) where
  List-cases : (xs : List Str) → (xs ≡ []) ⊎ ((x : Str) × (rest : List Str) × (xs ≡ x ∷ rest))
  List-cases [] = inl refl
  List-cases (x ∷ xs) = inr (x, xs, refl)

  loop-nil :
      (fuel : ℕ) (w : Walk)
      → w.queue ≡ []
      → loop nodes (adjacency_of [] edges) limit (suc fuel) w ≡ w
  unfolding loop
  loop-nil fuel w q = rw q refl

  loop-expand :
      (fuel : ℕ) (w : Walk) (id : Str) (rest : List Str)
      → w.queue ≡ id ∷ rest
      → loop nodes (adjacency_of [] edges) limit (suc fuel) w
        ≡ loop nodes
            (adjacency_of [] edges)
            limit
            fuel
            (expand nodes (adjacency_of [] edges) limit w id rest)
  unfolding loop
  loop-expand fuel w id rest q = rw q refl

  loop-cons :
      (fuel : ℕ) (w : Walk) (id : Str) (rest : List Str)
      → w.queue ≡ id ∷ rest
      → loop nodes (adjacency_of [] edges) limit (suc fuel) w
        ≡ loop nodes (adjacency_of [] edges) limit fuel (after nodes edges affected limit w id rest)
  unfolding after
  loop-cons fuel w id rest q =
      loop-expand fuel w id rest q
      ∙ ap (loop nodes (adjacency_of [] edges) limit fuel)
          (expand-offer_all nodes edges affected limit w id rest)

  after-rounds :
      (w : Walk) (id : Str) (rest : List Str)
      → w.queue ≡ id ∷ rest
      → rounds edges (after nodes edges affected limit w id rest) + 1 ≤ rounds edges w
  unfolding after
  after-rounds w id rest q = omega (
    arith,
    offer_all-rounds edges id (seen nodes edges affected limit w id rest)
        (nexts nodes edges affected limit w id)
        (λ v m.
          linked-ends id v edges (ground (arith, member-nexts nodes edges affected limit w id v))),
    ap (length {A = Str}) q,
    ap (length {A = Str}) (seen-queue nodes edges affected limit w id rest),
    ap (λ vs. unseen vs (ends edges)) (seen-visited nodes edges affected limit w id rest),
  )

  pub record Ends (w : Walk) : Type 0 where
    pub empty : w.queue ≡ []
    pub inv : Inv edges affected limit w
    pub collected : Collected nodes edges affected limit w

  loop-Ends :
      (fuel : ℕ) (w : Walk)
      → rounds edges w ≤ fuel
      → Inv edges affected limit w
      → Collected nodes edges affected limit w
      → Ends (loop nodes (adjacency_of [] edges) limit fuel w)
  unfolding loop
  loop-Ends zero w enough i c = record {
    empty = no_length w.queue (omega arith);
    inv = i;
    collected = c;
  }
    where
      no_length : (q : List Str) → length q ≤ 0 → q ≡ []
      no_length [] h = refl
      no_length (x ∷ q) h = absurd (omega arith)
  loop-Ends (suc fuel) w enough i c = elim (List-cases w.queue) [
    | inl empty ↦
        subst Ends (sym (loop-nil fuel w empty)) (record { empty = empty; inv = i; collected = c })
    | inr (id, rest, q) ↦
        (let known = i.queued id (rw q (rw (eq_refl id) refl)) in
          let (news, o) = Offered-after nodes edges affected limit w id rest known in
          let x = Expanded-after nodes edges affected limit w id rest news o in
          subst Ends (sym (loop-cons fuel w id rest q)) (
            loop-Ends fuel (after nodes edges affected limit w id rest)
              (omega (arith, after-rounds w id rest q))
              (Inv-expanded edges affected limit w id rest
                (after nodes edges affected limit w id rest) news q i x)
              (Collected-after nodes edges affected limit w id rest news q i c o)))
  ]

  start-Inv : Inv edges affected limit (start affected)
  start-Inv = record {
    queued = λ v m. m;
    sound = λ v m. subst (λ n. Way edges affected n v) (sym (flat v)) (here m);
    shallow = λ v m. omega (arith, flat v);
    sources = λ v m. (m, flat v);
    ordered = level affected;
    near =
        Near-of (depth_of (start affected)) affected affected 0 (λ v m. omega arith)
          (λ v m. omega (arith, flat v));
    closed = λ u v m n d l. cc;
  }
    where
      flat : (v : Str) → depth_of (start affected) v ≡ 0
      flat v = unfold depth_of lookup in refl

      level : (q : List Str) → Ordered (depth_of (start affected)) q
      level [] = tt
      level (u ∷ q) = (λ v m. omega (arith, flat u), level q)

  start-Collected : Collected nodes edges affected limit (start affected)
  start-Collected = record { found = λ s m. absurd (Memᴰ.not-nil m); all = λ v s m n at. cc }

  complete :
      (w : Walk) {n : ℕ} {v : Str}
      → Ends w
      → Way edges affected n v
      → n ≤ limit
      → (member v w.visited ≡ true) × (depth_of w v ≤ n)
  complete w {v = v} e (here m) bound =
      let (visited, flat) = e.inv.sources v m in (visited, omega arith)
  complete w {v = v} e (step {n} {u} way link) bound =
      let (visited, near) = complete w e way (omega arith) in
      let (seen_v, deep) = e.inv.closed u v visited (rw e.empty refl) (omega arith) link in
      (seen_v, omega arith)

walk_graph-Ends :
    (f : Fragment) (max_depth : ℤ)
    → Ends
        (index_nodes [] f.nodes)
        f.edges
        f.affected
        (depth_limit max_depth)
        (walk_graph f max_depth)
unfolding walk_graph
walk_graph-Ends f max_depth =
    loop-Ends (index_nodes [] f.nodes) f.edges f.affected (depth_limit max_depth)
      (length f.affected + 2 * length f.edges) (start f.affected)
      (omega (arith, unseen-le f.affected f.edges))
      (start-Inv (index_nodes [] f.nodes) f.edges f.affected (depth_limit max_depth))
      (start-Collected (index_nodes [] f.nodes) f.edges f.affected (depth_limit max_depth))

-- A node of the fragment with this system lies at most `limit` edges from an affected id.
pub record IsWithin (f : Fragment) (limit : ℕ) (s : SystemRef) : Type 0 where
  pub id : Str
  pub distance : ℕ
  pub bounded : distance ≤ limit
  pub way : Way f.edges f.affected distance id
  pub is_node : lookup id (index_nodes [] f.nodes) ≡ some s

-- The traversal comes to an end with an empty queue, and a system is in its result exactly when it
-- is that of a node which a path of at most `max_depth` edges, 3 if that is not positive, joins to an
-- affected id, where each edge is followed in both directions.
pub traverse_graph-reaches :
    (f : Fragment) (max_depth : ℤ) (s : SystemRef)
    → ((walk_graph f max_depth).queue ≡ [])
      × (Memᴰ s (traverse_graph f max_depth).systems ↔ IsWithin f (depth_limit max_depth) s)
unfolding traverse_graph
traverse_graph-reaches f max_depth s = (
  ended.empty,
  (
    λ m.
        let (v, visited, at) = ended.collected.found s m in
        record {
          id = v;
          distance = depth_of (walk_graph f max_depth) v;
          bounded = ended.inv.shallow v visited;
          way = ended.inv.sound v visited;
          is_node = at;
        },
    λ r.
        let (visited, _) =
          complete (index_nodes [] f.nodes) f.edges f.affected (depth_limit max_depth)
            (walk_graph f max_depth) ended r.way r.bounded in
        ended.collected.all r.id s visited (rw ended.empty refl) r.is_node,
  ),
)
  where
    ended :
        Ends
          (index_nodes [] f.nodes)
          f.edges
          f.affected
          (depth_limit max_depth)
          (walk_graph f max_depth)
    ended = walk_graph-Ends f max_depth
