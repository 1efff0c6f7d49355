-- ===== src/Graph/Links.antt =====
-- The edges, followed both ways, and the ids at their ends.
use merger.Prelude.{
  ◌⊎◌, ◌≡◌, refl, ap, ◌∙◌, ℕ, ◌+◌, ◌*◌, ◌≤◌, Bool, true, false, ◌&&◌, ◌||◌, List, [], ◌∷◌, ◌++◌,
  ◌==◌, any, if◌then◌else◌, Bool-cases, inl, inr, eq→≡, eq_refl, Dict, lookup, put, lookup-put,
  length, arith,
}
use merger.Text.{Str, str_key}
use merger.Graph.{Edge}
use merger.Graph.Traverse.{member, neighbours, join_to, adjacency_of}

-- An edge joins the two ids, in either direction.
abbrev pub joins : Str → Str → Edge → Bool
joins u v e = (e.from == u && e.to == v) || (e.to == u && e.from == v)

abbrev pub linked : List Edge → Str → Str → Bool
linked edges u v = any (joins u v) edges

pub member-append :
    (v : Str) (xs ys : List Str) → member v (xs ++ ys) ≡ (member v xs || member v ys)
member-append v [] ys = refl
member-append v (x ∷ xs) ys = ground (arith, member-append v xs ys)

neighbours-put :
    (k u : Str) (ids : List Str) (adjacency : Dict Str (List Str))
    → neighbours (put k ids adjacency) u ≡ (if k == u then ids else neighbours adjacency u)
unfolding neighbours
neighbours-put k u ids adjacency = rw (lookup-put k u ids adjacency) (ground arith)

member-join_to :
    (from to u v : Str) (adjacency : Dict Str (List Str))
    → member v (neighbours (join_to from to adjacency) u)
      ≡ (member v (neighbours adjacency u) || (from == u && to == v))
member-join_to from to u v adjacency =
    ap (member v) (neighbours-put from u (neighbours adjacency from ++ to ∷ []) adjacency)
    ∙ split (Bool-cases (from == u))
  where
    split :
        (from == u ≡ true) ⊎ (from == u ≡ false)
        → member v
            (if from == u then neighbours adjacency from ++ to ∷ [] else neighbours adjacency u)
          ≡ (member v (neighbours adjacency u) || (from == u && to == v))
    split (inl e) =
        let same : from ≡ u = eq→≡ from u e in
        rw e (member-append v (neighbours adjacency from) (to ∷ []) ∙ rw same (ground arith))
    split (inr n) = rw n (ground arith)

member-adjacency_of :
    (u v : Str) (adjacency : Dict Str (List Str)) (edges : List Edge)
    → member v (neighbours (adjacency_of adjacency edges) u)
      ≡ (member v (neighbours adjacency u) || linked edges u v)
unfolding adjacency_of
member-adjacency_of u v adjacency [] = ground arith
member-adjacency_of u v adjacency (e ∷ es) =
    member-adjacency_of u v (join_to e.to e.from (join_to e.from e.to adjacency)) es
    ∙ ground (
      arith,
      member-join_to e.to e.from u v (join_to e.from e.to adjacency),
      member-join_to e.from e.to u v adjacency,
    )

pub member-neighbours :
    (u v : Str) (edges : List Edge)
    → member v (neighbours (adjacency_of [] edges) u) ≡ linked edges u v
member-neighbours u v edges = member-adjacency_of u v [] edges ∙ (unfold neighbours lookup in refl)

-- Each end of each edge.
abbrev pub ends : List Edge → List Str
ends [] = []
ends (e ∷ es) = e.from ∷ (e.to ∷ ends es)

pub linked-ends :
    (u v : Str) (edges : List Edge) → linked edges u v ≡ true → member v (ends edges) ≡ true
linked-ends u v [] h = cc
linked-ends u v (e ∷ es) h = ground (arith, linked-ends u v es)

-- How many ends are not visited yet.
abbrev pub unseen : List Str → List Str → ℕ
unseen visited [] = 0
unseen visited (x ∷ xs) = (if member x visited then 0 else 1) + unseen visited xs

pub unseen-cons : (v : Str) (visited xs : List Str) → unseen (v ∷ visited) xs ≤ unseen visited xs
unseen-cons v visited [] = omega arith
unseen-cons v visited (x ∷ xs) = ground (arith, unseen-cons v visited xs)

pub unseen-new :
    (v : Str) (visited xs : List Str)
    → member v visited ≡ false
    → member v xs ≡ true
    → unseen (v ∷ visited) xs + 1 ≤ unseen visited xs
unseen-new v visited [] n h = cc
unseen-new v visited (x ∷ xs) n h = elim (Bool-cases (x == v)) [
  | inl e ↦
      (let same : x ≡ v = eq→≡ x v e in
        let a : member x visited ≡ false = rw same n in
        let b : (v == x) ≡ true = rw same (eq_refl v) in
        rw (a, b) (omega (arith, unseen-cons v visited xs)))
  | inr o ↦ ground (arith, unseen-new v visited xs n (rw o at h))
]

pub unseen-le :
    (visited : List Str) (edges : List Edge) → unseen visited (ends edges) ≤ 2 * length edges
unseen-le visited [] = omega arith
unseen-le visited (e ∷ es) = ground (arith, unseen-le visited es)
