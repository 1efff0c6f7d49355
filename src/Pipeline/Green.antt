-- ===== src/Pipeline/Green.antt =====
-- stages.go: what a GREEN lane says of a packet.
use merger.Prelude.{◌≡◌, sym, ap, ◌∙◌, false, All, any, is_empty, true, Result, ok, bind-ok}
use merger.Prelude.Int.{◌≤ℤ◌}
use mathlib.Core.Path.{subst}
use merger.Domain.{ChangePacket, DecisionStatus}
use merger.Conflict.Look.{marked}
use merger.Policy
use merger.Policy.Status.{Undemanding, evaluate_rules-asks_nothing}
use merger.Lanes
use merger.Pipeline.{Engines, enrich_risk, judged, apply_policy, assign_merge_lane, decide}

pub record IsClean (e : Engines) (p q : ChangePacket) : Type 0 where
  pub no_markers : any marked p.files ≡ false
  pub low_score : q.risk_summary.score ≤ℤ e.lanes.green_max
  pub approved : q.decision.status ≡ DecisionStatus.approved
  pub undemanding : All (Undemanding (enrich_risk e p)) e.policy.policies

abbrev the_ok : ChangePacket → Result Policy.PolicyError ChangePacket
the_ok = ok

ok_same : (x y : ChangePacket) → the_ok x ≡ the_ok y → x ≡ y
ok_same x y h = cc

policy_ok :
    (e : Engines) (p mid : ChangePacket)
    → apply_policy e p ≡ ok mid
    → (ev : Policy.Evaluation) × (Policy.evaluate e.now e.policy p ≡ ok ev) × (judged p ev ≡ mid)
unfolding apply_policy
policy_ok e p mid h =
    let (ev, evaluated, judgement) =
      bind-ok (Policy.evaluate e.now e.policy p) (λ ev. ok (judged p ev)) h in
    (ev, evaluated, ok_same _ _ judgement)

-- A packet that asks for no evidence and no reviewer.
abbrev pub AsksNothing : ChangePacket → Type 0
AsksNothing q = (is_empty q.evidence ≡ true) × (is_empty q.reviewers ≡ true)

abbrev ApprovedAsksNothing : ChangePacket → Type 0
ApprovedAsksNothing q = q.decision.status ≡ DecisionStatus.approved → AsksNothing q

judged-asks :
    (e : Engines) (p : ChangePacket) (ev : Policy.Evaluation)
    → Policy.evaluate_rules e.now e.policy.policies p ≡ ev
    → ApprovedAsksNothing (assign_merge_lane e (judged p ev))
unfolding assign_merge_lane
judged-asks e p ev h a =
    let (no_evidence, no_reviewers) =
      evaluate_rules-asks_nothing e.now e.policy.policies p
        (ap (λ (v : Policy.Evaluation). v.decision.status) h ∙ a) in
    (
      ap (λ (v : Policy.Evaluation). is_empty v.evidence) (sym h) ∙ no_evidence,
      ap (λ (v : Policy.Evaluation). is_empty v.reviewers) (sym h) ∙ no_reviewers,
    )

-- A packet whose decision the stages leave approved asks for no evidence and no reviewer.
pub decide-AsksNothing :
    (e : Engines) (p q : ChangePacket)
    → decide e p ≡ ok q
    → q.decision.status ≡ DecisionStatus.approved
    → AsksNothing q
unfolding decide
decide-AsksNothing e p q h =
    let (mid, policed, assigned) =
      bind-ok (apply_policy e (enrich_risk e p)) (λ m. ok (assign_merge_lane e m)) h in
    let (ev, evaluated, judgement) = policy_ok e (enrich_risk e p) mid policed in
    subst ApprovedAsksNothing (ap (assign_merge_lane e) judgement ∙ ok_same _ _ assigned) (
      judged-asks e (enrich_risk e p) ev
        (Policy.evaluate-ok e.now e.policy (enrich_risk e p) ev evaluated))
