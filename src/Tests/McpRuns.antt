-- ===== src/Tests/McpRuns.antt =====
-- Runs of the server for agents.
use merger.Prelude.{
  is_empty, ◌≡◌, ◌↔◌, refl, pos, Bool, true, false, not, ◌&&◌, [], ◌∷◌, ◌++◌, map, none, some, any,
  Dict, lookup, Result, ok, err,
}
use merger.Text.{Str, str_key, lit, split}
use merger.Domain.{ChangePacket, DeploymentStrategy, MergeLane}
use merger.Lanes.{is_black}
use merger.Policy.{RuleConfig}
use merger.Pipeline.Stages.{StageError}
use merger.Scan.{ScanOptions, run}
use merger.Resolve.{Files, repo_ref, config}
use merger.Settings.Model.{defaults}
use merger.Mcp.Ready.{is_approved, check_readiness}
use merger.Mcp.Blockers.{IsReady, check_readiness-ready_iff}
use merger.Mcp.Scanned.{scanned-reports_unused}
use merger.Mcp.Tools.{Value, World}
use merger.Mcp.Server.{Request, Response, new, Codec, take_line, take_lines, serve}
use merger.Mcp.Requests.{refuses}
use merger.Mcp.Answers.{expected_all, serve-answers, serve-unterminated}
use merger.Mcp.Refusals.{initializes, asks_tools, session-refuses}
use merger.Tests.Fixtures.{blank_packet}
use merger.Tests.ScanRuns.{offline, options}

abbrev tested_packet : ChangePacket
tested_packet = record blank_packet {
  evidence =
      record {
        kind = lit "test";
        name = lit "unit";
        required = true;
        reason = [];
        producer = [];
        github_check = none;
      }
      ∷ [];
  reviewers = record { team = lit "core"; reason = []; mandatory = true } ∷ [];
}

check_readiness-ready_iff_example :
    ((check_readiness (lit "unit" ∷ []) (lit "core" ∷ []) tested_packet).ready ≡ true)
    ↔ IsReady (lit "unit" ∷ []) (lit "core" ∷ []) tested_packet
check_readiness-ready_iff_example =
    check_readiness-ready_iff (lit "unit" ∷ []) (lit "core" ∷ []) tested_packet

ready_when_reported :
    (check_readiness (lit "unit" ∷ []) (lit "core" ∷ []) tested_packet).ready ≡ true
unfolding check_readiness merger.Text.Str-discrete lit
ready_when_reported = refl

abbrev api_rule : RuleConfig
api_rule = record {
  name = lit "api";
  description = lit "api changes are tested";
  when = record {
    mutations = [];
    paths = lit "internal/api/" ∷ [];
    criticalities = [];
    risk_score_gte = pos 0;
    ownership_teams = [];
  };
  require = record {
    reviewers = [];
    evidence = lit "unit" ∷ [];
    github_checks = [];
    deployment = record {
      strategy = DeploymentStrategy.unset;
      requires_canary = false;
      requires_rollback_plan = false;
      environments = [];
    };
  };
  action = record { block = false; minimum_lane = MergeLane.unset };
}

abbrev api_options : ScanOptions
api_options = record options { policy = record { policies = api_rule ∷ [] } }

abbrev or_blank : Result StageError ChangePacket → ChangePacket
or_blank (ok p) = p
or_blank (err e) = blank_packet

abbrev api_packet : ChangePacket
api_packet = or_blank (run offline api_options)

api_scanned : run offline api_options ≡ ok api_packet
unfolding run merger.Text.is_blank
api_scanned = refl

api_asks : map (λ e. e.name) api_packet.evidence ≡ lit "unit" ∷ []
unfolding run merger.Text.is_blank merger.Policy.matches_rule merger.Policy.packet_touches_any_path
api_asks = refl

-- The packet is not ready although all that it asks for is reported.
never_ready : (check_readiness (lit "unit" ∷ []) [] api_packet).ready ≡ false
unfolding run check_readiness merger.Text.is_blank merger.Policy.matches_rule
    merger.Policy.packet_touches_any_path
never_ready = refl

scanned-reports_unused_example : (check_readiness (lit "unit" ∷ []) [] api_packet).ready ≡ (
    is_approved api_packet.decision.status
    && (is_empty api_packet.evidence
        && (is_empty api_packet.reviewers && not (is_black api_packet.merge_lane))))
scanned-reports_unused_example =
    scanned-reports_unused offline api_options api_packet (lit "unit" ∷ []) [] api_scanned

-- A session: the lines stand for the requests that the table gives.
abbrev request : Str → Request
request method = record { jsonrpc = lit "2.0"; id = lit "7"; method = method; params = lit "p" }

abbrev table : Dict Str Request
table =
    (lit "a", request (lit "tools/list"))
    ∷ (lit "b", request (lit "notifications/initialized"))
    ∷ (lit "c", request (lit "tools/call"))
    ∷ []

abbrev codec : Codec Bool
codec = record {
  decode_request = λ line. lookup line table;
  decode_initialize = λ params. some (lit "2025-06-18");
  decode_call = λ params. some (record {
    name = lit "merger_check_readiness";
    arguments = some ((lit "change_packet", Value.other true) ∷ []);
  });
}

abbrev no_files : Files
no_files = record {
  stat = λ path. none;
  read_file = λ path. none;
  join_path = λ dir name. dir ++ lit "/" ++ name;
  is_abs = λ path. false;
  decode_config = λ defaults text. none;
  decode_policy = λ text. none;
}

abbrev world : World Bool
world = record {
  files = no_files;
  surroundings = λ root. offline;
  decode_packet = λ json. some tested_packet;
}

abbrev two_lines : Str
two_lines = lit " a" ++ b'\n' ∷ lit "b" ++ b'\n' ∷ lit "c"

serve-answers_example :
    map (λ (r : Response). r.id) (serve codec world new two_lines).1
    ≡ expected_all codec (split b'\n' two_lines)
serve-answers_example = serve-answers codec world new two_lines

two_answers : expected_all codec (split b'\n' two_lines) ≡ lit "7" ∷ lit "7" ∷ []
unfolding split lit merger.Text.trim_space lookup merger.Text.has_prefix
two_answers = refl

serve-unterminated_example :
    serve codec world new (two_lines ++ b'\n' ∷ []) ≡ serve codec world new two_lines
serve-unterminated_example = serve-unterminated codec world new two_lines

session-refuses_example :
    refuses (take_line codec world (take_lines codec world new (lit "a" ∷ [])).0 (lit "c")).1
    ≡ (asks_tools codec (lit "c") && not (any (initializes codec) (lit "a" ∷ [])))
session-refuses_example = session-refuses codec world (lit "a" ∷ []) (lit "c")

refused_early : (asks_tools codec (lit "c") && not (any (initializes codec) (lit "a" ∷ []))) ≡ true
unfolding merger.Text.trim_space lit lookup
refused_early = refl

-- Without a configuration and with a repository that has no owner.
no_owner :
    repo_ref (lit "merger") ≡ record { owner = []; name = lit "merger"; full_name = lit "merger" }
unfolding repo_ref lit
no_owner = refl

defaults_used : config no_files (lit ".") [] ≡ ok (defaults, [])
unfolding config merger.Resolve.config_candidates
defaults_used = refl
