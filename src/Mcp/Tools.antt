-- ===== src/Mcp/Tools.antt =====
-- internal/mcpserver/tools.go: the tools and their dispatch. The JSON of an argument that the code
-- passes on undecoded is a parameter, and so is the decoding of a packet.
use merger.Prelude.{
  ℕ, List, [], ◌∷◌, Option, none, some, ◌==◌, if◌then◌else◌, length, map, Dict, lookup, Result, ok,
  err, ◌>>=◌,
}
use merger.Text.{Str, str_key, lit}
use merger.Domain.{
  ChangePacket, DecisionStatus, MergeLane, MutationKind, RiskType, Severity, RiskSummary, Risk,
  Mutation, RuntimeImpact,
}
use merger.Lanes
use merger.Resolve.{Files, ResolveError, config, policy, scan_options}
use merger.Scan.{Surroundings, run}
use merger.Pipeline.Stages.{StageError}
use merger.Mcp.Ready.{
  NextAction, Plan, Readiness, required_evidence_count, next_action, check_readiness, plan_evidence,
}

-- A value of the arguments; an element of an array that is no text is `none`.
pub data Value (Json : Type 0) : Type 0 where
  null : Value Json
  text : Str → Value Json
  array : List (Option Str) → Value Json
  other : Json → Value Json

abbrev pub Arguments : Type 0 → Type 0
Arguments Json = Dict Str (Value Json)

pub data CallError : Type 0 where
  unknown_tool : Str → CallError
  packet_required packet_undecodable : CallError
  in_resolve : ResolveError → CallError
  in_scan : StageError → CallError

pub record MutationNote : Type 0 where
  pub kind : MutationKind
  pub severity : Severity
  pub title : Str
  pub files : List Str

pub record RiskNote : Type 0 where
  pub kind : RiskType
  pub severity : Severity
  pub summary : Str
  pub reason : Str
  pub mitigations : List Str

pub record Explanation : Type 0 where
  pub change_packet_id : Str
  pub merge_lane : MergeLane
  pub decision : DecisionStatus
  pub decision_summary : Str
  pub decision_reasons : List Str
  pub risk : RiskSummary
  pub mutations : List MutationNote
  pub risks : List RiskNote
  pub runtime_impact : RuntimeImpact
  pub next_action : NextAction
  pub evidence_required : ℕ

pub record Validated : Type 0 where
  pub config_path : Str
  pub policy_path : Str
  pub rules : ℕ
  pub lanes : Lanes.Config

-- What the text of a result shows; `no_policy` is the result that is marked as an error.
pub data ToolResult : Type 0 where
  scanned : ChangePacket → ToolResult
  validated : Validated → ToolResult
  no_policy : ToolResult
  explained : Explanation → ToolResult
  planned : Plan → ToolResult
  assessed : Readiness → ToolResult

abbrev mutation_note : Mutation → MutationNote
mutation_note m = record { kind = m.kind; severity = m.severity; title = m.title; files = m.files }

abbrev risk_note : Risk → RiskNote
risk_note r = record {
  kind = r.kind;
  severity = r.severity;
  summary = r.summary;
  reason = r.reason;
  mitigations = r.mitigations;
}

-- `toolExplain`, on the decoded packet.
unfoldable pub explain : ChangePacket → Explanation
unfolding next_action required_evidence_count
explain p = record {
  change_packet_id = p.id;
  merge_lane = p.merge_lane;
  decision = p.decision.status;
  decision_summary = p.decision.summary;
  decision_reasons = p.decision.reasons;
  risk = p.risk_summary;
  mutations = map mutation_note p.mutations;
  risks = map risk_note p.risks;
  runtime_impact = p.runtime;
  next_action = next_action p;
  evidence_required = required_evidence_count p.evidence;
}

abbrev texts : List (Option Str) → List Str
texts [] = []
texts (none ∷ elements) = texts elements
texts (some [] ∷ elements) = texts elements
texts (some (c ∷ s) ∷ elements) = (c ∷ s) ∷ texts elements

module _ {Json : Type 0} where
  abbrev texts_of : Option (Value Json) → List Str
  texts_of (some (Value.array elements)) = texts elements
  texts_of _ = []

  unfoldable pub string_set : Arguments Json → Str → List Str
  unfolding lookup
  string_set args key = texts_of (lookup key args)

  abbrev text_of : Option (Value Json) → Str
  text_of (some (Value.text s)) = s
  text_of _ = []

  unfoldable pub string_arg : Arguments Json → Str → Str
  unfolding lookup
  string_arg args key = text_of (lookup key args)

  unfoldable pub root_of : Arguments Json → Str
  unfolding string_arg lit
  root_of args =
      if string_arg args (lit "repo_root") == [] then lit "." else string_arg args (lit "repo_root")

-- What the tools take from their surroundings: the files, the engines of a scan below a root, and the
-- decoder of a packet.
pub record World (Json : Type 0) : Type 1 where
  pub files : Files
  pub surroundings : Str → Surroundings
  pub decode_packet : Value Json → Option ChangePacket

abbrev or_undecodable : Option ChangePacket → Result CallError ChangePacket
or_undecodable none = err CallError.packet_undecodable
or_undecodable (some p) = ok p

abbrev resolved {ℓ} : {A : Type ℓ} → Result ResolveError A → Result CallError A
resolved (ok a) = ok a
resolved (err e) = err (CallError.in_resolve e)

abbrev scan_result : Result StageError ChangePacket → Result CallError ToolResult
scan_result (ok p) = ok (ToolResult.scanned p)
scan_result (err e) = err (CallError.in_scan e)

module _ {Json : Type 0} (w : World Json) where
  abbrev packet_of : Option (Value Json) → Result CallError ChangePacket
  packet_of none = err CallError.packet_required
  packet_of (some Value.null) = err CallError.packet_required
  packet_of (some v) = or_undecodable (w.decode_packet v)

  unfoldable pub change_packet_arg : Arguments Json → Result CallError ChangePacket
  unfolding lookup lit
  change_packet_arg args = packet_of (lookup (lit "change_packet") args)

  unfoldable pub tool_scan : Arguments Json → Result CallError ToolResult
  unfolding root_of string_arg scan_options run lit
  tool_scan args =
      resolved (
        scan_options w.files (root_of args) (string_arg args (lit "config"))
          (string_arg args (lit "policy")) (string_arg args (lit "repo"))
          (string_arg args (lit "ref")) (string_arg args (lit "diff")))
      >>= (λ (options, _). scan_result (run (w.surroundings (root_of args)) options))

  unfoldable pub tool_validate : Arguments Json → Result CallError ToolResult
  unfolding root_of string_arg config policy lit
  tool_validate args =
      resolved (config w.files (root_of args) (string_arg args (lit "config"))) >>= (λ (cfg, path).
        resolved (policy w.files (root_of args) (string_arg args (lit "policy")) cfg)
        >>= (λ (rules, policy_path, found).
            if found
            then ok (
                ToolResult.validated (record {
                  config_path = path;
                  policy_path = policy_path;
                  rules = length rules.policies;
                  lanes = cfg.lanes;
                }))
            else ok ToolResult.no_policy))

  unfoldable pub tool_explain : Arguments Json → Result CallError ToolResult
  unfolding change_packet_arg explain
  tool_explain args = change_packet_arg args >>= (λ p. ok (ToolResult.explained (explain p)))

  unfoldable pub tool_plan_evidence : Arguments Json → Result CallError ToolResult
  unfolding change_packet_arg plan_evidence
  tool_plan_evidence args =
      change_packet_arg args >>= (λ p. ok (ToolResult.planned (plan_evidence p)))

  unfoldable pub tool_check_readiness : Arguments Json → Result CallError ToolResult
  unfolding change_packet_arg string_set check_readiness lit
  tool_check_readiness args = change_packet_arg args >>= (λ p. ok (
      ToolResult.assessed (
        check_readiness (string_set args (lit "completed_evidence"))
          (string_set args (lit "completed_reviews")) p)))

  -- `Call`
  unfoldable pub call : Str → Arguments Json → Result CallError ToolResult
  unfolding tool_scan tool_validate tool_explain tool_plan_evidence tool_check_readiness lit
  call name args =
      if name == lit "merger_scan"
      then tool_scan args
      else if name == lit "merger_validate"
      then tool_validate args
      else if name == lit "merger_explain"
      then tool_explain args
      else if name == lit "merger_plan_evidence"
      then tool_plan_evidence args
      else if name == lit "merger_check_readiness"
      then tool_check_readiness args
      else err (CallError.unknown_tool name)
