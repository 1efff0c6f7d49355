-- ===== src/Graph/Preserve.antt =====
-- A round keeps the invariant.
use merger.Prelude.{
  ◌≡◌, refl, sym, ap, ◌∙◌, ℕ, suc, ◌+◌, ◌≤◌, ◌<◌, Bool, true, false, ◌||◌, List, ◌∷◌, ◌==◌,
  Bool-cases, inl, inr, eq→≡, eq_refl, arith,
}
use mathlib.Core.Path.{subst}
use merger.Text.{Str, str_key}
use merger.Graph.{Edge}
use merger.Graph.Traverse.{member, Walk, depth_of}
use merger.Graph.Links.{linked, member-append}
use merger.Graph.Invariant.{Way, step, Ordered, Near, Ordered-append, Near-of, Inv, Expanded}

module _ (edges : List Edge) (affected : List Str) (limit : ℕ) where
  module _ (w : Walk) (id : Str) (rest : List Str) (w' : Walk) (news : List Str)
      (q : w.queue ≡ id ∷ rest) (inv : Inv edges affected limit w)
      (x : Expanded edges affected limit w id rest w' news) where
    head_queued : member id w.queue ≡ true
    head_queued = rw q (rw (eq_refl id) refl)

    pub head_visited : member id w.visited ≡ true
    head_visited = inv.queued id head_queued

    rest_visited : (v : Str) → member v rest ≡ true → member v w.visited ≡ true
    rest_visited v m = inv.queued v (rw q (ground arith))

    old_depth : (v : Str) → member v w.visited ≡ true → depth_of w' v ≡ depth_of w v
    old_depth v m = ground (arith, x.depth v)

    news_depth : (v : Str) → member v news ≡ true → depth_of w' v ≡ depth_of w id + 1
    news_depth v m = ground (arith, x.depth v, x.is_new v)

    news_visited : (v : Str) → member v news ≡ true → member v w'.visited ≡ true
    news_visited v m = ground (arith, x.visited v, x.is_new v)

    pub split_queue : (v : Str) → member v w'.queue ≡ (member v rest || member v news)
    split_queue v = ap (member v) x.queue ∙ member-append v rest news

    near_head : (v : Str) → member v w.visited ≡ true → depth_of w v ≤ depth_of w id + 1
    near_head v m = (subst (Near (depth_of w) w.visited) q inv.near) v m

    Ordered-head :
        ((v : Str) → member v rest ≡ true → depth_of w id ≤ depth_of w v)
        × Ordered (depth_of w) rest
    Ordered-head = subst (Ordered (depth_of w)) q inv.ordered

    all_near : (v : Str) → member v w'.visited ≡ true → depth_of w' v ≤ depth_of w id + 1
    all_near v m = elim (Bool-cases (member v w.visited)) [
      | inl old ↦ omega (arith, old_depth v old, near_head v old)
      | inr fresh ↦
          (let r : reach v ≡ true = ground (arith, x.visited v) in ground (arith, x.depth v))
    ]
      where
        reach : Str → Bool
        reach = x.reach

    keep_queued : (v : Str) → member v w'.queue ≡ true → member v w'.visited ≡ true
    keep_queued v m = elim (Bool-cases (member v rest)) [
      | inl old ↦ (let r = rest_visited v old in ground (arith, x.visited v))
      | inr fresh ↦ news_visited v (ground (arith, split_queue v))
    ]

    keep_sound : (v : Str) → member v w'.visited ≡ true → Way edges affected (depth_of w' v) v
    keep_sound v m = elim (Bool-cases (member v w.visited)) [
      | inl old ↦ subst (λ n. Way edges affected n v) (sym (old_depth v old)) (inv.sound v old)
      | inr fresh ↦
          (let r : x.reach v ≡ true = ground (arith, x.visited v) in
            let deep : suc (depth_of w id) ≡ depth_of w' v = ground (arith, x.depth v) in
            subst (λ n. Way edges affected n v) deep
              (step (inv.sound id head_visited) (x.reaches_link v r).1))
    ]

    keep_shallow : (v : Str) → member v w'.visited ≡ true → depth_of w' v ≤ limit
    keep_shallow v m = elim (Bool-cases (member v w.visited)) [
      | inl old ↦ omega (arith, old_depth v old, inv.shallow v old)
      | inr fresh ↦
          (let r : x.reach v ≡ true = ground (arith, x.visited v) in
            omega (arith, (x.reaches_link v r).0, all_near v m))
    ]

    keep_sources :
        (v : Str) → member v affected ≡ true → (member v w'.visited ≡ true) × (depth_of w' v ≡ 0)
    keep_sources v m =
        let (old, zero_deep) = inv.sources v m in
        (ground (arith, x.visited v), old_depth v old ∙ zero_deep)

    keep-Ordered : Ordered (depth_of w') w'.queue
    keep-Ordered =
        let (first, o) = Ordered-head in
        subst (Ordered (depth_of w')) (sym x.queue) (
          Ordered-append (depth_of w) (depth_of w') (depth_of w id + 1) rest news o
            (λ v m. let seen = rest_visited v m in (old_depth v seen, near_head v seen)) news_depth)

    keep-Near : Near (depth_of w') w'.visited w'.queue
    keep-Near = Near-of (depth_of w') w'.visited w'.queue (depth_of w id) above all_near
      where
        above : (v : Str) → member v w'.queue ≡ true → depth_of w id ≤ depth_of w' v
        above v m = elim (Bool-cases (member v rest)) [
          | inl old ↦ omega (arith, old_depth v (rest_visited v old), Ordered-head.0 v old)
          | inr fresh ↦ omega (arith, news_depth v (ground (arith, split_queue v)))
        ]

    keep_closed :
        (u v : Str)
        → member u w'.visited ≡ true
        → member u w'.queue ≡ false
        → depth_of w' u < limit
        → linked edges u v ≡ true
        → (member v w'.visited ≡ true) × (depth_of w' v ≤ depth_of w' u + 1)
    keep_closed u v seen out shallow link = elim (Bool-cases (id == u)) [
      | inl e ↦
          (let same : id ≡ u = eq→≡ id u e in
            let here_deep : depth_of w' u ≡ depth_of w u = old_depth u known in
            let open_id : depth_of w id < limit = rw same (rw here_deep at shallow) in
            let r : x.reach v ≡ true = x.link_reached v open_id (rw same link) in
            let seen_v : member v w'.visited ≡ true = ground (arith, x.visited v) in
            (seen_v, omega (arith, all_near v seen_v, here_deep, ap (depth_of w) same)))
      | inr n ↦
          (let (seen_v, near_v) =
              inv.closed u v known (rw q (rw n left)) (rw old_u at shallow) link in
            (ground (arith, x.visited v), omega (arith, old_depth v seen_v, old_u, near_v)))
    ]
      where
        known : member u w.visited ≡ true
        known = ground (arith, split_queue u, x.is_new u, x.visited u)

        old_u : depth_of w' u ≡ depth_of w u
        old_u = old_depth u known

        left : member u rest ≡ false
        left = ground (arith, split_queue u)

    pub Inv-expanded : Inv edges affected limit w'
    Inv-expanded = record {
      queued = keep_queued;
      sound = keep_sound;
      shallow = keep_shallow;
      sources = keep_sources;
      ordered = keep-Ordered;
      near = keep-Near;
      closed = keep_closed;
    }
