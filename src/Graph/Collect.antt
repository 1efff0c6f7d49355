-- ===== src/Graph/Collect.antt =====
-- The systems that the traversal collects.
use merger.Prelude.{
  ◌≡◌, ◌⊎◌, sym, ap, ℕ, true, false, ◌||◌, List, [], ◌∷◌, Option, none, some, ◌==◌, Bool-cases, inl,
  inr, eq→≡, Dict, lookup, arith,
}
use mathlib.Core.Path.{subst}
use mathlib.Core.List.{Memᴰ}
use mathlib.Core.List.Memᴰ
use merger.Text.{Str, str_key}
use merger.Domain.{SystemRef}
use merger.Graph.{Edge}
use merger.Graph.Traverse.{member, Walk, add_system}
use merger.Graph.Offer.{Offered}
use merger.Graph.Invariant.{Inv, Expanded}
use merger.Graph.Preserve.{head_visited, split_queue}
use merger.Graph.Round.{seen, nexts, after, Expanded-after}

module _ (nodes : Dict Str SystemRef) (edges : List Edge) (affected : List Str) (limit : ℕ) where
  -- The systems so far are those of the visited ids that have left the queue.
  pub record Collected (w : Walk) : Type 0 where
    pub found :
        (s : SystemRef)
        → Memᴰ s w.systems
        → (v : Str) × (member v w.visited ≡ true) × (lookup v nodes ≡ some s)
    pub all :
        (v : Str) (s : SystemRef)
        → member v w.visited ≡ true
        → member v w.queue ≡ false
        → lookup v nodes ≡ some s
        → Memᴰ s w.systems

  add_system-found :
      (o : Option SystemRef) (w : Walk) (s : SystemRef)
      → Memᴰ s (add_system o w).systems
      → Memᴰ s w.systems ⊎ (o ≡ some s)
  add_system-found none w s m = inl m
  add_system-found (some t) w s m = elim (Memᴰ.append_cases w.systems m) [
    | inl old ↦ inl old
    | inr last ↦ inr (ap some_system (sym (Memᴰ.eq_of_singleton last)))
  ]
    where
      some_system : SystemRef → Option SystemRef
      some_system = some

  add_system-old :
      (o : Option SystemRef) (w : Walk) (s : SystemRef)
      → Memᴰ s w.systems
      → Memᴰ s (add_system o w).systems
  add_system-old none w s m = m
  add_system-old (some t) w s m = Memᴰ.append_left (t ∷ []) m

  add_system-new :
      (o : Option SystemRef) (w : Walk) (s : SystemRef)
      → o ≡ some s
      → Memᴰ s (add_system o w).systems
  add_system-new none w s e = absurd (cc)
  add_system-new (some t) w s e = Memᴰ.append_right w.systems (Memᴰ.head (cc))

  module _ (w : Walk) (id : Str) (rest news : List Str) (q : w.queue ≡ id ∷ rest)
      (inv : Inv edges affected limit w) (c : Collected w)
      (o : Offered id
        (seen nodes edges affected limit w id rest)
        (after nodes edges affected limit w id rest)
        (nexts nodes edges affected limit w id)
        news) where
    w' : Walk
    w' = after nodes edges affected limit w id rest

    x : Expanded edges affected limit w id rest w' news
    unfolding w'
    x = Expanded-after nodes edges affected limit w id rest news o

    same_systems : w'.systems ≡ (add_system (lookup id nodes) (record w { queue = rest })).systems
    unfolding w' seen
    same_systems = o.systems

    keep_found :
        (s : SystemRef)
        → Memᴰ s w'.systems
        → (v : Str) × (member v w'.visited ≡ true) × (lookup v nodes ≡ some s)
    keep_found s m =
        elim (add_system-found (lookup id nodes) (record w { queue = rest }) s
          (subst (Memᴰ s) same_systems m)) [
            | inl old ↦
                (let (v, visited, at) = c.found s old in (v, ground (arith, x.visited v), at))
            | inr at ↦
                (let known = head_visited edges affected limit w id rest w' news q inv x in
                  (id, ground (arith, x.visited id), at))
          ]

    keep_all :
        (v : Str) (s : SystemRef)
        → member v w'.visited ≡ true
        → member v w'.queue ≡ false
        → lookup v nodes ≡ some s
        → Memᴰ s w'.systems
    keep_all v s visited out at = subst (Memᴰ s) (sym same_systems) (elim (Bool-cases (id == v)) [
      | inl e ↦
          (let same : id ≡ v = eq→≡ id v e in
            add_system-new (lookup id nodes) (record w { queue = rest }) s (rw same at))
      | inr n ↦
          add_system-old (lookup id nodes) (record w { queue = rest }) s
            (c.all v s known (rw q (rw n left)) at)
    ])
      where
        parts : member v w'.queue ≡ (member v rest || member v news)
        parts = split_queue edges affected limit w id rest w' news q inv x v

        known : member v w.visited ≡ true
        known = ground (arith, parts, x.is_new v, x.visited v)

        left : member v rest ≡ false
        left = ground (arith, parts)

    pub Collected-after : Collected (after nodes edges affected limit w id rest)
    unfolding w'
    Collected-after = record { found = keep_found; all = keep_all }
