-- ===== src/Mutations/Entries.antt =====
-- mutation_index.go: what an entry of the index covers stays covered.
use merger.Prelude.{
  ℕ, ◌≡◌, refl, sym, ap, ◌∙◌, true, false, Option, none, some, ◌==◌, Dict, lookup, put, lookup-put,
  Bool-cases, inl, inr, eq→≡, neq→ne,
}
use mathlib.Core.Path.{subst}
use merger.Text.{Str, str_key}
use merger.Domain.{Mutation, MutationKind, kind_key}
use merger.Mutations.Rules.{Rule}
use merger.Mutations.Index.{Ids, merged, entered}
use merger.Mutations.Covers.{Covers, Indexed, merged-left, merged-right}

-- Each mutation stands under its kind.
abbrev pub WellKinded : Dict MutationKind Mutation → Type 0
WellKinded d = (k : MutationKind) (m : Mutation) → lookup k d ≡ some m → m.kind ≡ k

WellKinded-put :
    (k : MutationKind) (v : Mutation) (d : Dict MutationKind Mutation)
    → v.kind ≡ k
    → WellKinded d
    → WellKinded (put k v d)
WellKinded-put k v d e w j m h = elim (Bool-cases (k == j)) [
  | inl same ↦
      (let g : some v ≡ some m = rw (lookup-put, same) at h in
        let f : v ≡ m = cc in rw (sym f) (e ∙ eq→≡ k j same))
  | inr other ↦ w j m (rw (lookup-put, other) at h)
]

Indexed-put :
    (r : Rule) (path : Str) (k : MutationKind) (v : Mutation) (d : Dict MutationKind Mutation)
    → ((k == r.kind) ≡ true → Covers r path v)
    → ((k == r.kind) ≡ false → Indexed r path d)
    → Indexed r path (put k v d)
Indexed-put r path k v d new old = elim (Bool-cases (k == r.kind)) [
  | inl same ↦ record { mutation = v; stored = rw (lookup-put, same) refl; covers = new same }
  | inr other ↦
      (let i = old other in
        record {
          mutation = i.mutation;
          stored = rw (lookup-put, other) i.stored;
          covers = i.covers;
        })
]

pub entered-WellKinded :
    (ids : ℕ → Str) (s : Ids) (m : Mutation) (o : Option Mutation)
    → lookup m.kind s.index ≡ o
    → WellKinded s.index
    → WellKinded (entered ids s m o).index
entered-WellKinded ids s m none e w = WellKinded-put m.kind _ s.index refl w
entered-WellKinded ids s m (some current) e w =
    WellKinded-put m.kind (merged current m) s.index (unfold merged in w m.kind current e) w

same_entry :
    (r : Rule) (path : Str) (d : Dict MutationKind Mutation) (k : MutationKind) (current : Mutation)
    → lookup k d ≡ some current
    → (k == r.kind) ≡ true
    → (i : Indexed r path d) → i.mutation ≡ current
same_entry r path d k current e same i =
    let f : some i.mutation ≡ some current =
      sym i.stored ∙ ap (λ x. lookup x d) (sym (eq→≡ k r.kind same)) ∙ e in
    cc

pub entered-keeps :
    (r : Rule) (path : Str) (ids : ℕ → Str) (s : Ids) (m : Mutation) (o : Option Mutation)
    → lookup m.kind s.index ≡ o
    → Indexed r path s.index
    → Indexed r path (entered ids s m o).index
entered-keeps r path ids s m none e i =
    Indexed-put r path m.kind _ s.index
      (λ same. absurd (
        let f : some i.mutation ≡ none =
          sym i.stored ∙ ap (λ x. lookup x s.index) (sym (eq→≡ m.kind r.kind same)) ∙ e in
        cc))
      (λ _. i)
entered-keeps r path ids s m (some current) e i =
    Indexed-put r path m.kind (merged current m) s.index
      (λ same.
        merged-left r path current m
          (subst (Covers r path) (same_entry r path s.index m.kind current e same i) i.covers))
      (λ _. i)

Covers-id :
    (r : Rule) (path : Str) (m : Mutation) (id : Str)
    → Covers r path m
    → Covers r path (record m { id = id })
Covers-id r path m id c = record {
  kind = c.kind;
  severity = c.severity;
  confidence = c.confidence;
  listed = c.listed;
}

pub entered-enters :
    (r : Rule) (path : Str) (ids : ℕ → Str) (s : Ids) (m : Mutation) (o : Option Mutation)
    → lookup m.kind s.index ≡ o
    → WellKinded s.index
    → Covers r path m
    → Indexed r path (entered ids s m o).index
entered-enters r path ids s m none e w c =
    Indexed-put r path m.kind _ s.index (λ _. Covers-id r path m _ c)
      (λ ne. absurd (neq→ne m.kind r.kind ne c.kind))
entered-enters r path ids s m (some current) e w c =
    Indexed-put r path m.kind (merged current m) s.index
      (λ same. merged-right r path current m (w m.kind current e ∙ eq→≡ m.kind r.kind same) c)
      (λ ne. absurd (neq→ne m.kind r.kind ne c.kind))
