-- ===== src/Mcp/Blockers.antt =====
-- When a packet is reported as ready.
use merger.Prelude.{
  ◌≡◌, ◌≢◌, ◌↔◌, refl, Bool, true, false, not, ◌&&◌, List, [], ◌∷◌, ◌++◌, is_empty, All,
  if◌then◌else◌, arith,
}
use merger.Text.{Str, str_key}
use merger.Domain.{
  ChangePacket, DecisionStatus, MergeLane, EvidenceRequirement, ReviewerRequirement,
}
use merger.Lanes.{is_black}
use merger.Mcp.Ready.{
  is_approved, has, Blocker, evidence_blockers, review_blockers, blockers, check_readiness,
}

is_empty-append {ℓ} :
    {A : Type ℓ} (xs ys : List A) → is_empty (xs ++ ys) ≡ (is_empty xs && is_empty ys)
is_empty-append [] ys = refl
is_empty-append (x ∷ xs) ys = refl

-- A piece of evidence that is not required, or is reported as complete.
abbrev pub EvidenceDone : List Str → EvidenceRequirement → Type 0
EvidenceDone completed e = e.required ≡ true → has completed e.name ≡ true

abbrev pub ReviewDone : List Str → ReviewerRequirement → Type 0
ReviewDone completed r = r.mandatory ≡ true → has completed r.team ≡ true

evidence_blockers-done :
    (completed : List Str) (es : List EvidenceRequirement)
    → is_empty (evidence_blockers completed es) ≡ true
    → All (EvidenceDone completed) es
unfolding evidence_blockers
evidence_blockers-done completed [] h = tt
evidence_blockers-done completed (e ∷ es) h =
    (λ r. ground arith, evidence_blockers-done completed es (ground arith))

done-evidence_blockers :
    (completed : List Str) (es : List EvidenceRequirement)
    → All (EvidenceDone completed) es
    → is_empty (evidence_blockers completed es) ≡ true
unfolding evidence_blockers
done-evidence_blockers completed [] h = refl
done-evidence_blockers completed (e ∷ es) (one, all) =
    ground (arith, done-evidence_blockers completed es all)

review_blockers-done :
    (completed : List Str) (rs : List ReviewerRequirement)
    → is_empty (review_blockers completed rs) ≡ true
    → All (ReviewDone completed) rs
unfolding review_blockers
review_blockers-done completed [] h = tt
review_blockers-done completed (r ∷ rs) h =
    (λ m. ground arith, review_blockers-done completed rs (ground arith))

done-review_blockers :
    (completed : List Str) (rs : List ReviewerRequirement)
    → All (ReviewDone completed) rs
    → is_empty (review_blockers completed rs) ≡ true
unfolding review_blockers
done-review_blockers completed [] h = refl
done-review_blockers completed (r ∷ rs) (one, all) =
    ground (arith, done-review_blockers completed rs all)

-- Ready, without blockers: the decision is approved, what is required is reported, the lane is not
-- BLACK.
pub record IsReady (evidence reviews : List Str) (p : ChangePacket) : Type 0 where
  pub approved : p.decision.status ≡ DecisionStatus.approved
  pub evidence_done : All (EvidenceDone evidence) p.evidence
  pub reviews_done : All (ReviewDone reviews) p.reviewers
  pub not_black : p.merge_lane ≢ MergeLane.black

pub ready-parts :
    (evidence reviews : List Str) (p : ChangePacket)
    → (check_readiness evidence reviews p).ready ≡ (
        is_approved p.decision.status
        && (is_empty (evidence_blockers evidence p.evidence)
            && (is_empty (review_blockers reviews p.reviewers) && not (is_black p.merge_lane))))
unfolding check_readiness blockers
ready-parts evidence reviews p =
    let a =
      if is_approved p.decision.status
      then []
      else Blocker.policy_decision p.decision.status ∷ [] in
    let l = if is_black p.merge_lane then Blocker.needs_escalation ∷ [] else [] in
    ground (
      arith,
      is_empty-append a
          (evidence_blockers evidence p.evidence ++ (review_blockers reviews p.reviewers ++ l)),
      is_empty-append (evidence_blockers evidence p.evidence)
          (review_blockers reviews p.reviewers ++ l),
      is_empty-append (review_blockers reviews p.reviewers) l,
    )

pub approved-is : (s : DecisionStatus) → is_approved s ≡ true → s ≡ DecisionStatus.approved
approved-is s h = ground arith

black-is : (l : MergeLane) → not (is_black l) ≡ true → l ≢ MergeLane.black
black-is l h e = ground arith

is-black : (l : MergeLane) → l ≢ MergeLane.black → not (is_black l) ≡ true
is-black l h = ground arith

and4 :
    (a b c d : Bool)
    → (a && (b && (c && d))) ≡ true
    → (a ≡ true) × (b ≡ true) × (c ≡ true) × (d ≡ true)
and4 true true true true h = (refl, refl, refl, refl)
and4 true true true false h = cc
and4 true true false d h = cc
and4 true false c d h = cc
and4 false b c d h = cc

-- A packet is reported as ready exactly when its decision is approved, each required piece of
-- evidence and each mandatory review is among those reported as complete, and its lane is not BLACK.
pub check_readiness-ready_iff :
    (evidence reviews : List Str) (p : ChangePacket)
    → ((check_readiness evidence reviews p).ready ≡ true) ↔ IsReady evidence reviews p
check_readiness-ready_iff evidence reviews p = (
  λ h.
      let (a, e, r, b) = and4 _ _ _ _ (rw (ready-parts evidence reviews p) at h) in
      record {
        approved = approved-is p.decision.status a;
        evidence_done = evidence_blockers-done evidence p.evidence e;
        reviews_done = review_blockers-done reviews p.reviewers r;
        not_black = black-is p.merge_lane b;
      },
  λ k. rw (
    ready-parts evidence reviews p,
    k.approved,
    done-evidence_blockers evidence p.evidence k.evidence_done,
    done-review_blockers reviews p.reviewers k.reviews_done,
    is-black p.merge_lane k.not_black,
  ),
)
