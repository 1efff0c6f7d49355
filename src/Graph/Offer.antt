-- ===== src/Graph/Offer.antt =====
-- The inner loop of the traversal: what it visits, and at which depth.
use merger.Prelude.{
  ◌≡◌, refl, sym, ◌∙◌, ℕ, ◌+◌, ◌≤◌, Bool, true, false, not, ◌&&◌, ◌||◌, List, [], ◌∷◌, ◌++◌, ◌==◌,
  if◌then◌else◌, Bool-cases, inl, inr, eq→≡, eq_refl, put, lookup-put, length, length-append, arith,
}
use merger.Text.{Str, str_key}
use merger.Graph.{Edge}
use merger.Graph.Traverse.{member, Walk, depth_of, offer, offer_all}
use merger.Graph.Links.{ends, unseen, unseen-new}
use mathlib.Core.List.{append_assoc, append-nil}

-- What an offer of ids from `id` does: it appends `news` to the queue.
pub record Offered (id : Str) (w w' : Walk) (nexts news : List Str) : Type 0 where
  pub queue : w'.queue ≡ w.queue ++ news
  pub systems : w'.systems ≡ w.systems
  pub criticality : w'.criticality ≡ w.criticality
  pub is_new : (v : Str) → member v news ≡ (not (member v w.visited) && member v nexts)
  pub visited : (v : Str) → member v w'.visited ≡ (member v w.visited || member v nexts)
  pub depth :
      (v : Str)
      → depth_of w' v ≡ (
          if member v w.visited
          then depth_of w v
          else if member v nexts
          then depth_of w id + 1
          else depth_of w v)

depth_of-put :
    (w : Walk) (k v : Str) (n : ℕ) (visited queue : List Str)
    → depth_of (record w { visited = visited; depth = put k n w.depth; queue = queue }) v
      ≡ (if k == v then n else depth_of w v)
unfolding depth_of
depth_of-put w k v n visited queue = rw (lookup-put k v n w.depth) (ground arith)

same_member :
    (next v : Str) (xs : List Str) (b : Bool)
    → member next xs ≡ b
    → (next == v) ≡ true
    → member v xs ≡ b
same_member next v xs b h e = let same : next ≡ v = eq→≡ next v e in rw (← same) h

Offered-none : (id : Str) (w : Walk) → Offered id w w [] []
Offered-none id w = record {
  queue = sym (append-nil w.queue);
  systems = refl;
  criticality = refl;
  is_new = λ v. ground arith;
  visited = λ v. ground arith;
  depth = λ v. ground arith;
}

Offered-old :
    (id next : Str) (w w' : Walk) (nexts news : List Str)
    → member next w.visited ≡ true
    → Offered id w w' nexts news
    → Offered id w w' (next ∷ nexts) news
Offered-old id next w w' nexts news old o = record {
  queue = o.queue;
  systems = o.systems;
  criticality = o.criticality;
  is_new = λ v. ground (arith, o.is_new v, same_member next v w.visited true old);
  visited = λ v. ground (arith, o.visited v, same_member next v w.visited true old);
  depth = λ v. ground (arith, o.depth v, same_member next v w.visited true old);
}

abbrev taken : Str → Walk → Str → Walk
taken id w next = record w {
  visited = next ∷ w.visited;
  depth = put next (depth_of w id + 1) w.depth;
  queue = w.queue ++ next ∷ [];
}

Offered-new :
    (id next : Str) (w w' : Walk) (nexts news : List Str)
    → member id w.visited ≡ true
    → member next w.visited ≡ false
    → Offered id (taken id w next) w' nexts news
    → Offered id w w' (next ∷ nexts) (next ∷ news)
Offered-new id next w w' nexts news known fresh o =
    let put_at = λ (v : Str).
      depth_of-put w next v (depth_of w id + 1) (next ∷ w.visited) (w.queue ++ next ∷ []) in
    record {
      queue = o.queue ∙ append_assoc w.queue (next ∷ []) news;
      systems = o.systems;
      criticality = o.criticality;
      is_new = λ v. ground (arith, o.is_new v, same_member next v w.visited false fresh);
      visited = λ v. ground (arith, o.visited v);
      depth = λ v. ground (
        arith,
        o.depth v,
        put_at v,
        put_at id,
        same_member next v w.visited false fresh,
        same_member next id w.visited false fresh,
      );
    }

pub offer_all-Offered :
    (id : Str) (w : Walk) (nexts : List Str)
    → member id w.visited ≡ true
    → (news : List Str) × Offered id w (offer_all id w nexts) nexts news
unfolding offer_all offer
offer_all-Offered id w [] known = ([], Offered-none id w)
offer_all-Offered id w (next ∷ nexts) known = elim (Bool-cases (member next w.visited)) [
  | inl old ↦ rw old (
      let (news, o) = offer_all-Offered id w nexts known in
      (news, Offered-old id next w (offer_all id w nexts) nexts news old o))
  | inr fresh ↦ rw fresh (
      let (news, o) = offer_all-Offered id (taken id w next) nexts (ground arith) in
      (
        next ∷ news,
        Offered-new id next w (offer_all id (taken id w next) nexts) nexts news known fresh o,
      ))
]

-- The rounds left: the queue, and the ends that are not visited.
abbrev pub rounds : List Edge → Walk → ℕ
rounds edges w = length w.queue + unseen w.visited (ends edges)

offer-old : (id : Str) (w : Walk) (next : Str) → member next w.visited ≡ true → offer id w next ≡ w
unfolding offer
offer-old id w next old = rw old refl

offer-new :
    (id : Str) (w : Walk) (next : Str)
    → member next w.visited ≡ false
    → offer id w next ≡ taken id w next
unfolding offer
offer-new id w next fresh = rw fresh refl

offer-rounds :
    (edges : List Edge) (id : Str) (w : Walk) (next : Str)
    → member next (ends edges) ≡ true
    → rounds edges (offer id w next) ≤ rounds edges w
offer-rounds edges id w next is_end = elim (Bool-cases (member next w.visited)) [
  | inl old ↦ rw (offer-old id w next old) (omega arith)
  | inr fresh ↦ rw (offer-new id w next fresh) (
      omega (
        arith,
        length-append {0} w.queue (next ∷ []),
        unseen-new next w.visited (ends edges) fresh is_end,
      ))
]

pub offer_all-rounds :
    (edges : List Edge) (id : Str) (w : Walk) (nexts : List Str)
    → ((v : Str) → member v nexts ≡ true → member v (ends edges) ≡ true)
    → rounds edges (offer_all id w nexts) ≤ rounds edges w
unfolding offer_all
offer_all-rounds edges id w [] ok_ends = omega arith
offer_all-rounds edges id w (next ∷ nexts) ok_ends = omega (
  arith,
  offer-rounds edges id w next (ok_ends next (rw (eq_refl next) refl)),
  offer_all-rounds edges id (offer id w next) nexts (λ v m. ok_ends v (ground arith)),
)
