-- ===== src/Pipeline.antt =====
-- internal/ingest/stages.go and workflow.go: the stages that take a packet from its mutations and
-- its runtime impact to its lane, and the effects that end them. internal/scan/scan.go runs the same
-- stages in `Run`.
pub mod Green
pub mod Finalize
pub mod Files
pub mod Stages
pub mod Workflow
use merger.Prelude.{
  ℕ, ℤ, Bool, true, false, List, [], ◌∷◌, Option, none, some, is_empty, if◌then◌else◌, MapOrder,
  Result, ok, err, ◌>>=◌,
}
use merger.Text.{Str}
use merger.Domain.{ChangePacket, MutationKind}
use merger.Conflict
use merger.Risk
use merger.Policy
use merger.Lanes

-- The engines of a processor, and the time.
pub record Engines : Type 1 where
  pub order : MapOrder
  pub weights : MutationKind → ℤ
  pub policy : Policy.Config
  pub lanes : Lanes.Config
  pub now : ℕ

-- `enrichRisk`: the conflicts come first, since the risk reads them.
unfoldable pub enrich_risk : Engines → ChangePacket → ChangePacket
enrich_risk e p =
    let assessed = record p { conflict = Conflict.analyze e.order p } in
    let (summary, risks) = Risk.evaluate e.order e.weights assessed in
    record assessed { risk_summary = summary; risks = risks }

abbrev pub judged : ChangePacket → Policy.Evaluation → ChangePacket
judged p ev = record p {
  decision = ev.decision;
  evidence = ev.evidence;
  reviewers = ev.reviewers;
  deployment = ev.deployment;
}

unfoldable pub apply_policy : Engines → ChangePacket → Result Policy.PolicyError ChangePacket
apply_policy e p = Policy.evaluate e.now e.policy p >>= (λ ev. ok (judged p ev))

unfoldable pub assign_merge_lane : Engines → ChangePacket → ChangePacket
assign_merge_lane e p = record p { merge_lane = Lanes.assign e.lanes p; updated_at = e.now }

unfoldable pub decide : Engines → ChangePacket → Result Policy.PolicyError ChangePacket
unfolding enrich_risk apply_policy assign_merge_lane
decide e p = apply_policy e (enrich_risk e p) >>= (λ q. ok (assign_merge_lane e q))

-- The effects of `finalize`.
pub data Effect : Type 0 where
  publish_violations publish_lane save_packet publish_check : Effect

-- The effects of one call in order, and the error that ended it: an effect that fails is the last.
-- `run` tells how each effect ends.
unfoldable pub perform : (Effect → Option Str) → List Effect → List Effect × Option Str
perform run [] = ([], none)
perform run (e ∷ es) =
    let (done, failure) = perform run es in
    elim (run e) [ none ↦ (e ∷ done, failure) | some why ↦ (e ∷ [], some why) ]

abbrev when : Bool → Effect → List Effect → List Effect
when true e es = e ∷ es
when false e es = es

-- `finalize`; `has_store` tells whether the processor has a store.
unfoldable pub finalize : Bool → (Effect → Option Str) → ChangePacket → List Effect × Option Str
unfolding perform
finalize has_store run p = perform run (
    when (if is_empty p.decision.violations then false else true) Effect.publish_violations
      (Effect.publish_lane ∷ when has_store Effect.save_packet (Effect.publish_check ∷ [])))
