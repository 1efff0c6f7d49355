-- ===== src/ControlPlane/Valid.antt =====
-- service.go over memory.go: what a well-formed repository is, and that saving keeps it.
use merger.Prelude.{
  ℕ, ◌≡◌, refl, List, [], ◌∷◌, Option, none, some, All, ◌==◌, Bool-cases, inl, inr, arith, Dict,
  lookup, Faithful, Faithful-put, put, All-without, eq→≡,
}
use merger.Text.{Str, str_key}
use merger.Domain.{ChangePacket, EvidenceExecution, EvidenceAuditEntry, EvidenceRequirement}
use merger.Store.{
  Repository, evidence_of_packet, or_nil, get_change_packet, upsert_evidence_execution,
  record_evidence_update, ensure_evidence, save_change_packet, new_repository, refreshed,
}
use merger.ControlPlane.Listing.{Named}

pub record IsInner (m : Dict Str EvidenceExecution) : Type 0 where
  pub named : Named m
  pub faithful : Faithful m

-- Each entry of an inner map of evidence carries its key for a name and no key stands twice; each
-- packet is stored under its id.
pub record IsValid (r : Repository) : Type 0 where
  pub inner : All (λ (x : Str × Dict Str EvidenceExecution). IsInner x.1) r.evidence_by_cpid
  pub stored : All (λ (x : Str × ChangePacket). x.1.id ≡ x.0) r.change_packets

pub new_repository-IsValid : IsValid new_repository
new_repository-IsValid = record { inner = tt; stored = tt }

IsInner-at :
    (id : Str) (d : Dict Str (Dict Str EvidenceExecution))
    → All (λ (x : Str × Dict Str EvidenceExecution). IsInner x.1) d
    → IsInner (or_nil (lookup id d))
unfolding lookup
IsInner-at id [] h = record { named = tt; faithful = tt }
IsInner-at id ((k, m) ∷ d) (p, h) = elim (Bool-cases (k == id)) [
  | inl same ↦ rw same p
  | inr other ↦ rw other (IsInner-at id d h)
]

pub evidence-Named : (r : Repository) (id : Str) → IsValid r → Named (evidence_of_packet r id)
evidence-Named r id v = (IsInner-at id r.evidence_by_cpid v.inner).named

pub evidence-Faithful : (r : Repository) (id : Str) → IsValid r → Faithful (evidence_of_packet r id)
evidence-Faithful r id v = (IsInner-at id r.evidence_by_cpid v.inner).faithful

packet_id_in :
    (id : Str) (d : Dict Str ChangePacket) (p : ChangePacket)
    → All (λ (x : Str × ChangePacket). x.1.id ≡ x.0) d
    → lookup id d ≡ some p
    → p.id ≡ id
unfolding lookup
packet_id_in id [] p h e = cc
packet_id_in id ((k, q) ∷ d) p (s, h) e = elim (Bool-cases (k == id)) [
  | inl same ↦ (let f : some q ≡ some p = rw same at e in ground (arith, eq→≡ k id same))
  | inr other ↦ packet_id_in id d p h (rw other at e)
]

pub packet_id :
    (r : Repository) (id : Str) (p : ChangePacket)
    → IsValid r
    → get_change_packet r id ≡ some p
    → p.id ≡ id
unfolding get_change_packet
packet_id r id p v h = packet_id_in id r.change_packets p v.stored h

name_of_entry :
    (name : Str) (m : Dict Str EvidenceExecution) (e : EvidenceExecution)
    → Named m
    → lookup name m ≡ some e
    → e.name ≡ name
unfolding lookup
name_of_entry name [] e h f = cc
name_of_entry name ((k, q) ∷ m) e (s, h) f = elim (Bool-cases (k == name)) [
  | inl same ↦ (let g : some q ≡ some e = rw same at f in ground (arith, eq→≡ k name same))
  | inr other ↦ name_of_entry name m e h (rw other at f)
]

refreshed_name :
    (now : ℕ) (id : Str) (q : EvidenceRequirement) (o : Option EvidenceExecution)
    → ((e : EvidenceExecution) → o ≡ some e → e.name ≡ q.name)
    → (refreshed now id q o).name ≡ q.name
refreshed_name now id q none h = refl
refreshed_name now id q (some e) h = h e refl

IsInner-put :
    (e : EvidenceExecution) (m : Dict Str EvidenceExecution) (k : Str)
    → e.name ≡ k
    → IsInner m
    → IsInner (put k e m)
IsInner-put e m k h i = record {
  named = unfold put in (h, All-without _ _ k m (λ j w ne p. p) i.named);
  faithful = Faithful-put k e m i.faithful;
}

-- The inner map of a packet is replaced.
put-IsInner :
    (id : Str) (m : Dict Str EvidenceExecution) (d : Dict Str (Dict Str EvidenceExecution))
    → IsInner m
    → All (λ (x : Str × Dict Str EvidenceExecution). IsInner x.1) d
    → All (λ (x : Str × Dict Str EvidenceExecution). IsInner x.1) (put id m d)
unfolding put
put-IsInner id m d h k = (h, All-without _ _ id d (λ j w ne p. p) k)

ensure_evidence-IsInner :
    (now : ℕ) (id : Str) (qs : List EvidenceRequirement) (m : Dict Str EvidenceExecution)
    → IsInner m
    → IsInner (ensure_evidence now id qs m)
unfolding ensure_evidence
ensure_evidence-IsInner now id [] m i = i
ensure_evidence-IsInner now id (q ∷ qs) m i =
    ensure_evidence-IsInner now id qs _
      (IsInner-put _ m q.name (refreshed_name now id q _ (λ e. name_of_entry q.name m e i.named)) i)

pub save_change_packet-IsValid :
    (now : ℕ) (r : Repository) (p : ChangePacket) → IsValid r → IsValid (save_change_packet now r p)
unfolding save_change_packet
save_change_packet-IsValid now r p v = record {
  inner =
      put-IsInner p.id _ r.evidence_by_cpid
        (ensure_evidence-IsInner now p.id p.evidence _ (IsInner-at p.id r.evidence_by_cpid v.inner))
        v.inner;
  stored = unfold put in (refl, All-without _ _ p.id r.change_packets (λ j w ne h. h) v.stored);
}

pub record_evidence_update-IsValid :
    (now : ℕ) (r : Repository) (e : EvidenceExecution) (a : EvidenceAuditEntry)
    → IsValid r
    → IsValid (record_evidence_update now r e a)
unfolding record_evidence_update upsert_evidence_execution
record_evidence_update-IsValid now r e a v = record {
  inner =
      put-IsInner e.change_packet_id _ r.evidence_by_cpid
        (IsInner-put _ _ e.name (ground arith)
          (IsInner-at e.change_packet_id r.evidence_by_cpid v.inner))
        v.inner;
  stored = v.stored;
}
