-- ===== src/Pipeline/Workflow.antt =====
-- internal/ingest/workflow.go: `processPROpened`.
use merger.Prelude.{ℕ, List, Option, none, some, Result, ok, err, ◌>>=◌}
use merger.Text.{Str}
use merger.Domain.{ChangePacket}
use merger.Diff
use merger.Graph.{ContentLoader}
use merger.Pipeline.{Effect, decide, finalize}
use merger.Pipeline.Stages.{
  Processor, StageError, Service, Webhook, PullRequest, at_stage, enrich_mutations,
  enrich_runtime_impact, fetch_pull_request, new_packet, webhook_origin,
}

-- The events that are published between the stages.
pub data Event : Type 0 where
  pr_opened packet_created mutation_detected risk_assigned : Event

-- How each event and each effect of `finalize` ends: `some` is an error.
pub record Outside : Type 0 where
  pub publish : Event → Option Str
  pub perform : Effect → Option Str
  pub service : Service

abbrev pub unless_failed {ℓ} :
    {A : Type ℓ} → (Str → StageError) → Option Str → Result StageError A → Result StageError A
unless_failed f none next = next
unless_failed f (some e) next = err (f e)

abbrev pub emit {ℓ} : {A : Type ℓ} → Outside → Event → Result StageError A → Result StageError A
emit o event next = unless_failed StageError.in_event (o.publish event) next

abbrev pub with_diff : Option Str → Result StageError (List Diff.File)
with_diff none = err StageError.no_diff
with_diff (some text) = ok (Diff.parse_unified text)

-- The loader of a packet's head.
abbrev pub head_loader : Outside → Webhook → PullRequest → ContentLoader
head_loader o w pr = λ path. o.service.get_file_content w.repo_owner w.repo_name path pr.head_sha

unfoldable pub build_change_packet :
    Outside → Str → Str → ℕ → Webhook → PullRequest → Result StageError ChangePacket
unfolding new_packet Diff.parse_unified
build_change_packet o id correlation now w pr =
    with_diff (o.service.get_pull_request_diff w.repo_owner w.repo_name w.pull_request.number)
    >>= (λ files.
        emit o Event.packet_created
          (ok (new_packet (webhook_origin id correlation now w pr) files)))

-- The stages of a packet with the events between them.
unfoldable pub enrich_and_decide :
    Processor → Outside → ContentLoader → ChangePacket → Result StageError ChangePacket
unfolding enrich_mutations enrich_runtime_impact decide
enrich_and_decide p o load packet = enrich_mutations p load packet >>= (λ m.
    emit o Event.mutation_detected (
      enrich_runtime_impact p load m
      >>= (λ r. emit o Event.risk_assigned (at_stage StageError.in_policy (decide p.engines r)))))

unfoldable pub process_pr_opened :
    Processor → Outside → Str → Str → ℕ → Webhook → Result StageError ChangePacket
unfolding fetch_pull_request build_change_packet enrich_and_decide finalize
process_pr_opened p o id correlation now w =
    let pr = fetch_pull_request o.service w in
    emit o Event.pr_opened (
      build_change_packet o id correlation now w pr >>= (λ packet.
        enrich_and_decide p o (head_loader o w pr) packet
        >>= (λ q. unless_failed StageError.in_effect (finalize p.has_store o.perform q).1 (ok q))))
