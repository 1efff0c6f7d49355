-- ===== src/Graph/Invariant.antt =====
-- The invariant of the traversal: the visited ids are those found so far, at the length of a
-- shortest path, and the queue holds those that wait, in the order of their depths.
use merger.Prelude.{
  ◌≡◌, refl, sym, ◌∙◌, ℕ, zero, suc, ◌+◌, ◌≤◌, ◌<◌, Bool, true, false, not, ◌&&◌, ◌||◌, List, [],
  ◌∷◌, ◌++◌, if◌then◌else◌, Bool-cases, inl, inr, eq_refl, arith,
}
use merger.Text.{Str, str_key}
use merger.Graph.{Edge}
use merger.Graph.Traverse.{member, Walk, depth_of}
use merger.Graph.Links.{linked, member-append}

-- A path of n edges joins an affected id to this one.
pub data Way (edges : List Edge) (affected : List Str) : ℕ → Str → Type 0 where
  here : {id : Str} → member id affected ≡ true → Way edges affected zero id
  step :
      {n : ℕ} {u v : Str}
      → Way edges affected n u
      → linked edges u v ≡ true
      → Way edges affected (suc n) v

-- The depths along the queue never fall.
abbrev pub Ordered : (Str → ℕ) → List Str → Type 0
Ordered d [] = Unit
Ordered d (u ∷ q) = ((v : Str) → member v q ≡ true → d u ≤ d v) × Ordered d q

-- Each id visited lies at most one deeper than the head of the queue.
abbrev pub Near : (Str → ℕ) → List Str → List Str → Type 0
Near d visited [] = Unit
Near d visited (u ∷ q) = (v : Str) → member v visited ≡ true → d v ≤ d u + 1

pub Ordered-append :
    (d e : Str → ℕ) (k : ℕ) (q news : List Str)
    → Ordered d q
    → ((v : Str) → member v q ≡ true → (e v ≡ d v) × (d v ≤ k))
    → ((v : Str) → member v news ≡ true → e v ≡ k)
    → Ordered e (q ++ news)
Ordered-append d e k [] news o old new = level news new
  where
    level : (xs : List Str) → ((v : Str) → member v xs ≡ true → e v ≡ k) → Ordered e xs
    level [] h = tt
    level (x ∷ xs) h = (
      λ v m. omega (arith, h x (rw (eq_refl x) refl), h v (ground arith)),
      level xs (λ v m. h v (ground arith)),
    )
Ordered-append d e k (u ∷ q) news (first, o) old new = (
  λ v m. behind v (sym (member-append v q news) ∙ m),
  Ordered-append d e k q news o (λ v m. old v (ground arith)) new,
)
  where
    at_u : (e u ≡ d u) × (d u ≤ k)
    at_u = old u (rw (eq_refl u) refl)

    behind : (v : Str) → (member v q || member v news) ≡ true → e u ≤ e v
    behind v m = elim (Bool-cases (member v q)) [
      | inl a ↦ (let (x, y) = old v (ground arith) in omega (arith, first v a, at_u.0, x))
      | inr n ↦ omega (arith, new v (rw n at m), at_u.0, at_u.1)
    ]

pub Near-of :
    (d : Str → ℕ) (visited q : List Str) (k : ℕ)
    → ((v : Str) → member v q ≡ true → k ≤ d v)
    → ((v : Str) → member v visited ≡ true → d v ≤ k + 1)
    → Near d visited q
Near-of d visited [] k above below = tt
Near-of d visited (u ∷ q) k above below =
    λ v m. omega (arith, below v m, above u (rw (eq_refl u) refl))

module _ (edges : List Edge) (affected : List Str) (limit : ℕ) where
  pub record Inv (w : Walk) : Type 0 where
    pub queued : (v : Str) → member v w.queue ≡ true → member v w.visited ≡ true
    pub sound : (v : Str) → member v w.visited ≡ true → Way edges affected (depth_of w v) v
    pub shallow : (v : Str) → member v w.visited ≡ true → depth_of w v ≤ limit
    pub sources :
        (v : Str) → member v affected ≡ true → (member v w.visited ≡ true) × (depth_of w v ≡ 0)
    pub ordered : Ordered (depth_of w) w.queue
    pub near : Near (depth_of w) w.visited w.queue
    pub closed :
        (u v : Str)
        → member u w.visited ≡ true
        → member u w.queue ≡ false
        → depth_of w u < limit
        → linked edges u v ≡ true
        → (member v w.visited ≡ true) × (depth_of w v ≤ depth_of w u + 1)

  -- What a round does: the id has left the queue, and the ids that it reaches have joined it.
  pub record Expanded (w : Walk) (id : Str) (rest : List Str) (w' : Walk) (news : List Str)
      : Type 0 where
    pub reach : Str → Bool
    pub reaches_link :
        (v : Str) → reach v ≡ true → (depth_of w id < limit) × (linked edges id v ≡ true)
    pub link_reached : (v : Str) → depth_of w id < limit → linked edges id v ≡ true → reach v ≡ true
    pub queue : w'.queue ≡ rest ++ news
    pub is_new : (v : Str) → member v news ≡ (not (member v w.visited) && reach v)
    pub visited : (v : Str) → member v w'.visited ≡ (member v w.visited || reach v)
    pub depth :
        (v : Str)
        → depth_of w' v ≡ (
            if member v w.visited
            then depth_of w v
            else if reach v
            then depth_of w id + 1
            else depth_of w v)
