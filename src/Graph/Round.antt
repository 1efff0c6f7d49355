-- ===== src/Graph/Round.antt =====
-- A round of the traversal in its parts: the system, the ids that it offers, what it reaches.
use merger.Prelude.{
  ◌≡◌, refl, ap, ◌∙◌, ℕ, true, not, ◌&&◌, List, [], ◌++◌, Option, none, some, if◌then◌else◌, leb,
  Bool-cases, inl, inr, Dict, lookup, arith,
}
use merger.Text.{Str, str_key}
use merger.Domain.{SystemRef}
use merger.Graph.{Edge}
use merger.Graph.Traverse.{
  member, neighbours, adjacency_of, Walk, depth_of, offer_all, add_system, expand,
}
use merger.Graph.Links.{linked, member-neighbours}
use merger.Graph.Offer.{Offered, offer_all-Offered}
use merger.Graph.Invariant.{Expanded}

module _ (nodes : Dict Str SystemRef) (edges : List Edge) (affected : List Str) (limit : ℕ) where
  unfoldable pub seen : Walk → Str → List Str → Walk
  seen w id rest = add_system (lookup id nodes) (record w { queue = rest })

  unfoldable pub nexts : Walk → Str → List Str
  nexts w id = if leb limit (depth_of w id) then [] else neighbours (adjacency_of [] edges) id

  pub expand-offer_all :
      (w : Walk) (id : Str) (rest : List Str)
      → expand nodes (adjacency_of [] edges) limit w id rest
        ≡ offer_all id (seen w id rest) (nexts w id)
  unfolding expand seen nexts offer_all
  expand-offer_all w id rest = ground arith

  add_system-visited :
      (o : Option SystemRef) (w : Walk)
      → ((add_system o w).visited ≡ w.visited)
        × ((add_system o w).queue ≡ w.queue)
        × ((add_system o w).depth ≡ w.depth)
  add_system-visited none w = (refl, refl, refl)
  add_system-visited (some s) w = (refl, refl, refl)

  seen-depth_of :
      (w : Walk) (id : Str) (rest : List Str) (v : Str) → depth_of (seen w id rest) v ≡ depth_of w v
  unfolding depth_of seen
  seen-depth_of w id rest v =
      rw ((add_system-visited (lookup id nodes) (record w { queue = rest })).2) refl

  pub member-nexts :
      (w : Walk) (id v : Str)
      → member v (nexts w id) ≡ (not (leb limit (depth_of w id)) && linked edges id v)
  unfolding nexts
  member-nexts w id v = elim (Bool-cases (leb limit (depth_of w id))) [
    | inl deep ↦ rw deep refl
    | inr open_id ↦ rw open_id (member-neighbours id v edges)
  ]

  pub seen-visited : (w : Walk) (id : Str) (rest : List Str) → (seen w id rest).visited ≡ w.visited
  unfolding seen
  seen-visited w id rest = (add_system-visited (lookup id nodes) (record w { queue = rest })).0

  pub seen-queue : (w : Walk) (id : Str) (rest : List Str) → (seen w id rest).queue ≡ rest
  unfolding seen
  seen-queue w id rest = (add_system-visited (lookup id nodes) (record w { queue = rest })).1

  -- The state after the round of `id`.
  unfoldable pub after : Walk → Str → List Str → Walk
  after w id rest = offer_all id (seen w id rest) (nexts w id)

  pub Offered-after :
      (w : Walk) (id : Str) (rest : List Str)
      → member id w.visited ≡ true
      → (news : List Str) × Offered id (seen w id rest) (after w id rest) (nexts w id) news
  unfolding after
  Offered-after w id rest known =
      offer_all-Offered id (seen w id rest) (nexts w id)
        (ap (member id) (seen-visited w id rest) ∙ known)

  pub Expanded-after :
      (w : Walk) (id : Str) (rest news : List Str)
      → Offered id (seen w id rest) (after w id rest) (nexts w id) news
      → Expanded edges affected limit w id rest (after w id rest) news
  Expanded-after w id rest news o = record {
    reach = λ v. member v (nexts w id);
    reaches_link = λ v r. ground (arith, member-nexts w id v);
    link_reached = λ v open_id link. ground (arith, member-nexts w id v);
    queue = o.queue ∙ ap (λ q. q ++ news) (seen-queue w id rest);
    is_new = λ v. o.is_new v ∙ same v;
    visited = λ v. o.visited v ∙ ground (arith, old v);
    depth = λ v.
        ground (arith, o.depth v, old v, seen-depth_of w id rest v, seen-depth_of w id rest id);
  }
    where
      old : (v : Str) → member v (seen w id rest).visited ≡ member v w.visited
      old v = ap (member v) (seen-visited w id rest)

      same :
          (v : Str)
          → (not (member v (seen w id rest).visited) && member v (nexts w id))
            ≡ (not (member v w.visited) && member v (nexts w id))
      same v = ap (λ b. not b && member v (nexts w id)) (old v)
