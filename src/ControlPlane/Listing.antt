-- ===== src/ControlPlane/Listing.antt =====
-- A listing of the evidence of a packet, in any order of the map, shows what the map holds.
use merger.Prelude.{
  ◌≡◌, refl, sym, ◌∙◌, true, false, List, [], ◌∷◌, map, Option, none, some, any, All, ◌==◌,
  Bool-cases, inl, inr, arith, MapOrder, Dict, lookup, Faithful, All-perm, All-map-fun, any-map,
  any-perm, All-sort_by, any-sort_by, sort_by, eq→≡,
}
use mathlib.Core.Path.{subst}
use merger.Text.{Str, str_key}
use merger.Domain.{EvidenceExecution, EvidenceStatus}
use merger.Store.{Repository, evidence_of_packet, list_evidence_executions, by_name}
use merger.ControlPlane.Evidence.{status_in}

-- Each entry carries its key for a name.
abbrev pub Named : Dict Str EvidenceExecution → Type 0
Named = All (λ (x : Str × EvidenceExecution). x.1.name ≡ x.0)

abbrev pub status_or : EvidenceStatus → Option EvidenceExecution → EvidenceStatus
status_or s none = s
status_or s (some e) = e.status

-- What a list of executions says of a name is what the map says of it.
pub record Shows (m : Dict Str EvidenceExecution) (name : Str) (es : List EvidenceExecution)
    : Type 0 where
  pub agrees : All (λ e. (e.name == name) ≡ true → lookup name m ≡ some e) es
  pub absent : any (λ e. e.name == name) es ≡ false → lookup name m ≡ none

entry_shown :
    (m : Dict Str EvidenceExecution) (name : Str) (k : Str) (e : EvidenceExecution)
    → e.name ≡ k
    → lookup k m ≡ some e
    → (e.name == name) ≡ true
    → lookup name m ≡ some e
entry_shown m name k e p q h = subst (λ x. lookup x m ≡ some e) (sym p ∙ eq→≡ e.name name h) q

entries_shown :
    (m m' : Dict Str EvidenceExecution) (name : Str)
    → Named m'
    → All (λ (x : Str × EvidenceExecution). lookup x.0 m ≡ some x.1) m'
    → All (λ (x : Str × EvidenceExecution). (x.1.name == name) ≡ true → lookup name m ≡ some x.1) m'
entries_shown m [] name n f = tt
entries_shown m ((k, e) ∷ m') name (p, n) (q, f) =
    (entry_shown m name k e p q, entries_shown m m' name n f)

none-Named :
    (m : Dict Str EvidenceExecution) (name : Str)
    → Named m
    → any (λ (x : Str × EvidenceExecution). x.1.name == name) m ≡ false
    → lookup name m ≡ none
unfolding lookup
none-Named [] name n h = refl
none-Named ((k, e) ∷ m) name (p, n) h =
    let other : (e.name == name) ≡ false = ground arith in
    let ne : (k == name) ≡ false = subst (λ x. (x == name) ≡ false) p other in
    rw ne (none-Named m name n (ground arith))

unlisted :
    (order : MapOrder) (m : Dict Str EvidenceExecution) (name : Str)
    → any
        (λ e. e.name == name)
        (sort_by by_name (map (λ (x : Str × EvidenceExecution). x.1) (order.iterate _ m)))
      ≡ false
    → any (λ (x : Str × EvidenceExecution). x.1.name == name) m ≡ false
unlisted order m name h =
    sym (any-perm _ (order.visits_all (Str × EvidenceExecution) m))
    ∙ sym (any-map _ _ (order.iterate _ m))
    ∙ sym (any-sort_by (λ e. e.name == name) by_name _)
    ∙ h

pub Shows-listing :
    (order : MapOrder) (r : Repository) (id name : Str)
    → Named (evidence_of_packet r id)
    → Faithful (evidence_of_packet r id)
    → Shows (evidence_of_packet r id) name (list_evidence_executions order r id)
unfolding list_evidence_executions
Shows-listing order r id name n f =
    let m = evidence_of_packet r id in
    let visit = order.visits_all (Str × EvidenceExecution) m in
    record {
      agrees =
          All-sort_by _ by_name _
            (All-map-fun _ _ _ (All-perm _ visit (entries_shown m m name n f)));
      absent = λ h. none-Named m name n (unlisted order m name h);
    }

pub status_in-Shows :
    (m : Dict Str EvidenceExecution) (name : Str) (es : List EvidenceExecution)
    → Shows m name es
    → status_in es name ≡ status_or EvidenceStatus.pending (lookup name m)
unfolding status_in
status_in-Shows m name [] s = rw (s.absent refl)
status_in-Shows m name (e ∷ es) s = elim (Bool-cases (e.name == name)) [
  | inl same ↦ rw (same, s.agrees.0 same)
  | inr other ↦ rw other (
      status_in-Shows m name es
        (record { agrees = s.agrees.1; absent = λ h. s.absent (rw (other, h)) }))
]
