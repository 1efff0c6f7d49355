-- ===== src/Risk/Account.antt =====
-- The risks of a packet account for its score.
use merger.Prelude.{
  ◌≡◌, refl, ap, sym, ◌∙◌, ◌≢◌, false, List, [], ◌∷◌, map, ℤ, pos, ◌==◌, Bool-cases, inl, inr,
  if◌then◌else◌, All, MapOrder, length, ne→neq,
}
use mathlib.Core.List.{Permᴰ}
use merger.Prelude.Int.{◌+ℤ◌, ltb_ℤ, +ℤ_assoc, zero-+ℤ, +ℤ-zero, int_laws}
use merger.Domain.{
  MutationKind, RiskType, risk_key, Mutation, Risk, ChangePacket, ConflictAssessment,
}
use merger.Risk.{
  risk_type, apply_mutation_risk, apply_mutations, put_risk, conflict_risk, add_conflict,
  collect_risks, evaluate, rate, clamp_score, apply_runtime_criticality, apply_change_volume,
}

abbrev pub total : List Risk → ℤ
total [] = pos 0
total (r ∷ rs) = r.score +ℤ total rs

total-perm : {xs ys : List Risk} → Permᴰ xs ys → total xs ≡ total ys
total-perm Permᴰ.nil = refl
total-perm (Permᴰ.cons p q) = cc (ap (λ (r : Risk). r.score) p, total-perm q)
total-perm (Permᴰ.swap {a} {b} {a'} {b'} {l} p q) =
    swapped a b a' b' (total l) (ap (λ (r : Risk). r.score) p) (ap (λ (r : Risk). r.score) q)
  where
    swapped :
        (a b a' b' : Risk) (t : ℤ)
        → a.score ≡ b'.score
        → b.score ≡ a'.score
        → a.score +ℤ (b.score +ℤ t) ≡ a'.score +ℤ (b'.score +ℤ t)
    swapped a b a' b' t p q = rw (p, q) (omega int_laws)
total-perm (Permᴰ.trans p q) = total-perm p ∙ total-perm q

total-rate : (rs : List Risk) → total (map rate rs) ≡ total rs
total-rate [] = refl
total-rate (r ∷ rs) = ap (λ t. r.score +ℤ t) (total-rate rs)

total-apply_mutation_risk :
    (base : ℤ) (m : Mutation) (rs : List Risk)
    → total (apply_mutation_risk base m rs) ≡ total rs +ℤ base
unfolding apply_mutation_risk
total-apply_mutation_risk base m [] = omega int_laws
total-apply_mutation_risk base m (r ∷ rs) = elim (Bool-cases (r.kind == risk_type m.kind)) [
  | inl same ↦ rw same (omega int_laws)
  | inr other ↦ rw other (
      ap (λ t. r.score +ℤ t) (total-apply_mutation_risk base m rs)
      ∙ sym (+ℤ_assoc r.score (total rs) base))
]

-- The sum of the weights of the mutations.
abbrev pub weight_sum : (MutationKind → ℤ) → List Mutation → ℤ
weight_sum weights [] = pos 0
weight_sum weights (m ∷ ms) = weights m.kind +ℤ weight_sum weights ms

apply_mutations-sum :
    (weights : MutationKind → ℤ) (score : ℤ) (rs : List Risk) (ms : List Mutation)
    → (apply_mutations weights score rs ms).0 ≡ score +ℤ weight_sum weights ms
unfolding apply_mutations
apply_mutations-sum weights score rs [] = omega int_laws
apply_mutations-sum weights score rs (m ∷ ms) =
    apply_mutations-sum weights (score +ℤ weights m.kind)
      (apply_mutation_risk (weights m.kind) m rs) ms
    ∙ +ℤ_assoc score (weights m.kind) (weight_sum weights ms)

apply_mutations-total :
    (weights : MutationKind → ℤ) (score : ℤ) (rs : List Risk) (ms : List Mutation)
    → total (apply_mutations weights score rs ms).1 ≡ total rs +ℤ weight_sum weights ms
unfolding apply_mutations
apply_mutations-total weights score rs [] = omega int_laws
apply_mutations-total weights score rs (m ∷ ms) =
    let w = weights m.kind in
    let rest = weight_sum weights ms in
    apply_mutations-total weights (score +ℤ w) (apply_mutation_risk w m rs) ms
    ∙ ap (λ t. t +ℤ rest) (total-apply_mutation_risk w m rs)
    ∙ +ℤ_assoc (total rs) w rest

-- No risk in the map is a conflict.
abbrev NoConflict : List Risk → Type 0
NoConflict = All (λ r. (r.kind == RiskType.conflict) ≡ false)

risk_type-ne-conflict : (k : MutationKind) → risk_type k ≢ RiskType.conflict
risk_type-ne-conflict MutationKind.unknown h = cc
risk_type-ne-conflict MutationKind.auth_behavior_change h = cc
risk_type-ne-conflict MutationKind.database_schema h = cc
risk_type-ne-conflict MutationKind.runtime_config h = cc
risk_type-ne-conflict MutationKind.deployment_workflow h = cc
risk_type-ne-conflict MutationKind.dependency h = cc
risk_type-ne-conflict k h = cc

apply_mutation_risk-NoConflict :
    (base : ℤ) (m : Mutation) (rs : List Risk)
    → NoConflict rs
    → NoConflict (apply_mutation_risk base m rs)
unfolding apply_mutation_risk
apply_mutation_risk-NoConflict base m [] h = (ne→neq _ _ (risk_type-ne-conflict m.kind), tt)
apply_mutation_risk-NoConflict base m (r ∷ rs) (p, h) =
    elim (Bool-cases (r.kind == risk_type m.kind)) [
      | inl same ↦ rw same (p, h)
      | inr other ↦ rw other (p, apply_mutation_risk-NoConflict base m rs h)
    ]

apply_mutations-NoConflict :
    (weights : MutationKind → ℤ) (score : ℤ) (rs : List Risk) (ms : List Mutation)
    → NoConflict rs
    → NoConflict (apply_mutations weights score rs ms).1
unfolding apply_mutations
apply_mutations-NoConflict weights score rs [] h = h
apply_mutations-NoConflict weights score rs (m ∷ ms) h =
    apply_mutations-NoConflict weights (score +ℤ weights m.kind)
      (apply_mutation_risk (weights m.kind) m rs) ms
      (apply_mutation_risk-NoConflict (weights m.kind) m rs h)

total-put_risk :
    (c : Risk) (rs : List Risk)
    → c.kind ≡ RiskType.conflict
    → NoConflict rs
    → total (put_risk c rs) ≡ total rs +ℤ c.score
unfolding put_risk
total-put_risk c [] e h = omega int_laws
total-put_risk c (r ∷ rs) e (p, h) =
    let other : (r.kind == c.kind) ≡ false = rw e p in
    rw other
      (ap (λ t. r.score +ℤ t) (total-put_risk c rs e h) ∙ sym (+ℤ_assoc r.score (total rs) c.score))

-- What the conflict assessment adds to the score.
abbrev pub conflict_part : ℤ → ℤ
conflict_part s = if ltb_ℤ (pos 0) s then s else pos 0

-- The weights of the mutations and the conflict.
abbrev pub raw_score : (MutationKind → ℤ) → ChangePacket → ℤ
raw_score weights p = weight_sum weights p.mutations +ℤ conflict_part p.conflict.score

score-conflict_risk : (c : ConflictAssessment) → (conflict_risk c).score ≡ c.score
unfolding conflict_risk
score-conflict_risk c = refl

kind-conflict_risk : (c : ConflictAssessment) → (conflict_risk c).kind ≡ RiskType.conflict
unfolding conflict_risk
kind-conflict_risk c = refl

add_conflict-account :
    (c : ConflictAssessment) (score : ℤ) (risks : List Risk)
    → NoConflict risks
    → let (score', risks') = add_conflict c (score, risks) in
      (score' ≡ score +ℤ conflict_part c.score)
      × (total risks' ≡ total risks +ℤ conflict_part c.score)
add_conflict-account c score risks free = elim (Bool-cases (ltb_ℤ (pos 0) c.score)) [
  | inl risky ↦ (
    unfold add_conflict in rw risky,
    unfold add_conflict in
        rw risky (
          total-put_risk (conflict_risk c) risks (kind-conflict_risk c) free
          ∙ ap (λ t. total risks +ℤ t) (score-conflict_risk c)),
  )
  | inr calm ↦ (
    unfold add_conflict in rw calm (sym (+ℤ-zero score)),
    unfold add_conflict in rw calm (sym (+ℤ-zero (total risks))),
  )
]

collect_risks-raw :
    (weights : MutationKind → ℤ) (p : ChangePacket)
    → ((collect_risks weights p).0 ≡ raw_score weights p)
      × (total (collect_risks weights p).1 ≡ raw_score weights p)
collect_risks-raw weights p =
    let (score, risks) = apply_mutations weights (pos 0) [] p.mutations in
    let free = apply_mutations-NoConflict weights (pos 0) [] p.mutations tt in
    let (one, two) = add_conflict-account p.conflict score risks free in
    let gain = conflict_part p.conflict.score in
    (
      unfold collect_risks in
          (one
            ∙ ap (λ t. t +ℤ gain) (apply_mutations-sum weights (pos 0) [] p.mutations ∙ zero-+ℤ _)),
      unfold collect_risks in
          (two
            ∙ ap (λ t. t +ℤ gain)
                (apply_mutations-total weights (pos 0) [] p.mutations ∙ zero-+ℤ _)),
    )

-- The score before it is clamped: what the risks add up to, and the surcharges.
abbrev pub unclamped : ChangePacket → ℤ → ℤ
unclamped p sum =
    apply_change_volume (apply_runtime_criticality sum p.runtime.criticality) (length p.files)

-- The risks that are published add up to the weights of the mutations and the positive conflict
-- score, in whatever order the map of risks is visited, and the score of the summary is that sum,
-- with the surcharges, clamped.
pub evaluate-accounts :
    (order : MapOrder) (weights : MutationKind → ℤ) (p : ChangePacket)
    → let (summary, risks) = evaluate order weights p in
      (total risks ≡ raw_score weights p)
      × (summary.score ≡ clamp_score (unclamped p (raw_score weights p)))
evaluate-accounts order weights p =
    let (sum, all) = collect_risks-raw weights p in
    (
      unfold evaluate in
          (total-rate (order.iterate Risk (collect_risks weights p).1)
            ∙ total-perm (order.visits_all Risk (collect_risks weights p).1)
            ∙ all),
      unfold evaluate in ap (λ t. clamp_score (unclamped p t)) sum,
    )
