-- ===== src/Risk/Score.antt =====
-- The range of the score, and how it moves with the mutations.
use merger.Prelude.{ℕ, ◌≡◌, ◌↔◌, refl, ◌∷◌, ℤ, pos, arith, MapOrder, length}
use merger.Prelude.Int.{◌≤ℤ◌, ◌<ℤ◌, int_laws, +ℤ_mono}
use merger.Domain.{MutationKind, Mutation, Severity, Criticality, ChangePacket}
use merger.Risk.{
  evaluate, clamp_score, apply_runtime_criticality, apply_change_volume, severity_from_score,
  default_weights,
}
use merger.Risk.Account.{raw_score, unclamped, evaluate-accounts}

clamp_score-range : (s : ℤ) → (pos 0 ≤ℤ clamp_score s) × (clamp_score s ≤ℤ pos 100)
unfolding clamp_score
clamp_score-range s = (ground arith, ground arith)

severity-score :
    (order : MapOrder) (w : MutationKind → ℤ) (p : ChangePacket)
    → (evaluate order w p).0.severity ≡ severity_from_score (evaluate order w p).0.score
unfolding evaluate
severity-score order w p = refl

severity-critical_iff : (s : ℤ) → (severity_from_score s ≡ Severity.critical) ↔ (pos 80 ≤ℤ s)
unfolding severity_from_score
severity-critical_iff s = (λ h. ground arith, λ h. ground arith)

severity-low_iff : (s : ℤ) → (severity_from_score s ≡ Severity.low) ↔ (s <ℤ pos 25)
unfolding severity_from_score
severity-low_iff s = (λ h. ground arith, λ h. ground arith)

pub record IsRated (score : ℤ) (severity : Severity) : Type 0 where
  pub at_least : pos 0 ≤ℤ score
  pub at_most : score ≤ℤ pos 100
  pub critical_high : (severity ≡ Severity.critical) ↔ (pos 80 ≤ℤ score)
  pub low_small : (severity ≡ Severity.low) ↔ (score <ℤ pos 25)

clamped :
    (order : MapOrder) (w : MutationKind → ℤ) (p : ChangePacket)
    → (evaluate order w p).0.score ≡ clamp_score (unclamped p (raw_score w p))
clamped order w p = (evaluate-accounts order w p).1

-- The score of a summary is between 0 and 100; its severity is critical exactly from 80 on, and low
-- exactly below 25.
pub evaluate-IsRated :
    (order : MapOrder) (w : MutationKind → ℤ) (p : ChangePacket)
    → IsRated (evaluate order w p).0.score (evaluate order w p).0.severity
evaluate-IsRated order w p =
    let s = (evaluate order w p).0.score in
    let (low, high) = clamp_score-range (unclamped p (raw_score w p)) in
    rw (severity-score order w p) (record {
      at_least = rw (clamped order w p) low;
      at_most = rw (clamped order w p) high;
      critical_high = severity-critical_iff s;
      low_small = severity-low_iff s;
    })

clamp_score-mono : (s t : ℤ) → s ≤ℤ t → clamp_score s ≤ℤ clamp_score t
unfolding clamp_score
clamp_score-mono s t h = ground arith

criticality-mono :
    (s t : ℤ) (c : Criticality)
    → s ≤ℤ t
    → apply_runtime_criticality s c ≤ℤ apply_runtime_criticality t c
unfolding apply_runtime_criticality
criticality-mono s t Criticality.high h = +ℤ_mono s t (pos 10) h
criticality-mono s t Criticality.tier0 h = +ℤ_mono s t (pos 20) h
criticality-mono s t c h = h

volume-mono : (s t : ℤ) (n : ℕ) → s ≤ℤ t → apply_change_volume s n ≤ℤ apply_change_volume t n
unfolding apply_change_volume
volume-mono s t n h = ground (arith, +ℤ_mono s t (pos 8))

abbrev pub with_mutation : Mutation → ChangePacket → ChangePacket
with_mutation m p = record p { mutations = m ∷ p.mutations }

-- A further mutation whose weight is not negative never lowers the score.
evaluate-mono :
    (order : MapOrder) (w : MutationKind → ℤ) (p : ChangePacket) (m : Mutation)
    → pos 0 ≤ℤ w m.kind
    → (evaluate order w p).0.score ≤ℤ (evaluate order w (with_mutation m p)).0.score
evaluate-mono order w p m h =
    rw (clamped order w p, clamped order w (with_mutation m p))
      (clamp_score-mono _ _ (
        volume-mono _ _ (length p.files)
          (criticality-mono _ _ p.runtime.criticality (raw_more w p m h))))
  where
    raw_more :
        (w : MutationKind → ℤ) (p : ChangePacket) (m : Mutation)
        → pos 0 ≤ℤ w m.kind
        → raw_score w p ≤ℤ raw_score w (with_mutation m p)
    raw_more w p m h = omega int_laws

pub default_weights-nonneg : (k : MutationKind) → pos 0 ≤ℤ default_weights k
unfolding default_weights
default_weights-nonneg k = ground arith
