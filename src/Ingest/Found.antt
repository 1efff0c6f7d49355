-- ===== src/Ingest/Found.antt =====
-- The packet and the requirement that a check run finds.
use merger.Prelude.{
  ℤ, ◌≡◌, ◌⊎◌, refl, sym, ap, ◌∙◌, inl, inr, Bool, true, false, ◌&&◌, List, [], ◌∷◌, Option, none,
  some, any, ◌==◌, if◌then◌else◌, arith, ltb, nat_key, Bool-cases, eq_refl, MapOrder,
}
use merger.Prelude.Int.{int_key}
use merger.Text.{Str, str_key}
use merger.Domain.{EvidenceRequirement, ChangePacket}
use merger.Store.{Repository, find_latest_change_packet, find_latest, same_head, newer}
use merger.Ingest.{is_bound, matching_evidence_requirement}

newer_found :
    (q p : ChangePacket) (latest : Option ChangePacket)
    → newer q latest ≡ some p
    → (q ≡ p) ⊎ (latest ≡ some p)
newer_found q p none h = inl cc
newer_found q p (some l) h = elim (Bool-cases (ltb l.updated_at q.updated_at)) [
  | inl late ↦ (let k : some q ≡ some p = rw late at h in inl cc)
  | inr early ↦ inr (rw early at h)
]

chosen :
    (b : Bool) (q p : ChangePacket) (latest : Option ChangePacket)
    → (if b then newer q latest else latest) ≡ some p
    → ((b ≡ true) × (q ≡ p)) ⊎ (latest ≡ some p)
chosen true q p latest h = elim (newer_found q p latest h) [ inl e ↦ inl (refl, e) | inr l ↦ inr l ]
chosen false q p latest h = inr h

find_latest-found :
    (repo : Str) (n : ℤ) (head : Str) (es : List (Str × ChangePacket))
    (latest : Option ChangePacket) (p : ChangePacket)
    → find_latest repo n head es latest ≡ some p
    → (same_head repo n head p ≡ true) ⊎ (latest ≡ some p)
unfolding find_latest
find_latest-found repo n head [] latest p h = inr h
find_latest-found repo n head ((id, q) ∷ es) latest p h =
    elim (find_latest-found repo n head es _ p h) [
      | inl found ↦ inl found
      | inr given ↦ (elim (chosen (same_head repo n head q) q p latest given) [
        | inl (hit, e) ↦ inl (ap (same_head repo n head) (sym e) ∙ hit)
        | inr older ↦ inr older
      ])
    ]

pub find_latest_change_packet-found :
    (order : MapOrder) (r : Repository) (repo : Str) (n : ℤ) (head : Str) (p : ChangePacket)
    → find_latest_change_packet order r repo n head ≡ some p
    → same_head repo n head p ≡ true
unfolding find_latest_change_packet
find_latest_change_packet-found order r repo n head p h =
    elim (find_latest-found repo n head (order.iterate (Str × ChangePacket) r.change_packets) none p
      h) [ inl found ↦ found | inr nothing ↦ absurd cc ]

pub matching-bound :
    (qs : List EvidenceRequirement) (name : Str) (app : ℤ) (q : EvidenceRequirement)
    → matching_evidence_requirement qs name app ≡ some q
    → any (λ x. x.name == q.name && is_bound name app x.github_check) qs ≡ true
unfolding matching_evidence_requirement
matching-bound [] name app q h = cc
matching-bound (x ∷ qs) name app q h = elim (Bool-cases (is_bound name app x.github_check)) [
  | inl bound ↦
      (let k : some x ≡ some q = rw bound at h in
        let e : x ≡ q = cc in ground (arith, eq_refl q.name, ap (λ y. y.name == q.name) e))
  | inr free ↦ (let k = matching-bound qs name app q (rw free at h) in ground arith)
]
