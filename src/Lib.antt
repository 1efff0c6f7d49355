-- ===== src/Lib.antt =====
-- merger, a control plane for changes: a pull request becomes a Change Packet, whose lane (GREEN,
-- YELLOW, RED, BLACK) says how it may be merged. A diff is parsed (Diff), its files are classified
-- into mutations (Mutations), conflicts are assessed (Conflict), the risk is scored (Risk), the
-- policy asks for evidence and reviewers (Policy), and a lane is assigned (Lanes). The packet is
-- stored (Store); evidence then comes in over HTTP (ControlPlane) or from GitHub checks (Ingest),
-- and each update reconciles the decision and the lane.
--
-- Parts and files. Paths are those of the repository.
--   Prelude       shared names, Boolean tests, lists, Go's integers, results, maps and sorts
--   Text          the functions of Go's `strings` that the program uses, on lists of bytes
--   Domain        internal/domain: the records and the string types with their constants
--   Diff          pkg/diff/parser.go: ParseUnified is `parse_unified`
--   Mutations     internal/mutations: Classify is `classify`; Rules, Extract and Index are
--                 rule_catalog.go with rule_matchers.go, extractors.go and mutation_index.go
--   Conflict      internal/conflictrisk/analyzer.go: Analyze is `analyze`
--   Risk          internal/risk: Evaluate is `evaluate`, with its helpers and the default weights
--   Policy        internal/policy: Validate is `validate` (Policy/Validate), validateRule is
--                 `validate_rule` (Policy/ValidateRule), matchesRule is `matches_rule`
--                 (Policy/Matchers), Evaluate is `evaluate_rules` (Policy/Apply)
--   Lanes         internal/lanes/assigner.go: Assign is `assign`
--   Access        internal/access: RequireRole is `require_role` (Access), the static tokens are in
--                 Access/Static and the JWT in Access/Claims and Access/Jwt; each Authenticate is
--                 `static_authenticate`, `jwt_authenticate`, `disabled_authenticate`
--   Graph         internal/runtimegraph: ResolveImpact is `resolve_impact` (Graph/Resolver), over the
--                 sources in Graph/Sources and Graph/Manifests; traverseGraph is in Graph/Traverse
--   Store         internal/store/memory.go: each method is a function from state to state
--   ControlPlane  internal/controlplane/service.go over the repository of Store:
--                 UpdateEvidenceExecution is `update_evidence_execution` (ControlPlane/Update),
--                 reconcileDecision is `reconcile_decision` (ControlPlane/Reconcile),
--                 RecordDeploymentOutcome and RiskCalibrationReport are in ControlPlane/Outcomes,
--                 http.go and access.go in ControlPlane/Http
--   Ingest        internal/ingest/processor.go and check_reconciliation.go: ProcessCheckRun is
--                 `process_check_run`
--   Pipeline      internal/ingest/stages.go and workflow.go: processPROpened is `process_pr_opened`
--                 (Pipeline/Workflow), its stages are in Pipeline/Stages and Pipeline
--   Scan          internal/scan/scan.go: Run is `run`
--   Resolve       internal/resolve: ScanOptions is `scan_options`; LoadConfig of internal/policy is
--                 `load_config` (Policy/Loader)
--   Mcp           internal/mcpserver: Call is `call` (Mcp/Tools) with the tools, of which those on a
--                 packet are in Mcp/Ready; HandleRequest and Serve are `handle_request` and `serve`
--                 (Mcp/Server)
--   Settings      internal/config/config.go: Validate and the checks of each service (Settings/
--                 AccessRules and Settings/Services), with buildAuthenticator of
--                 cmd/merger-controlplane/main.go; the lane threshold of internal/cli/scan.go
--   Tests         runs at concrete inputs
--
-- How the model stands to the code. A struct is a record, a string type with constants a data type
-- (`other` holds any other text), an error that is returned a value. A map is an association list
-- with one entry for a key; the order in which Go visits a map is a parameter, `MapOrder`, of which
-- only is known that it visits each entry once. Times are numbers of nanoseconds, 0 for the zero
-- time; `time.Now` and fresh ids are arguments. Strings are lists of bytes; case and space are
-- those of ASCII. Integers do not overflow: scores and counts are sums over one packet. A loop is a
-- recursion over a list; fuel stands only in the printing of a number of at most 20 digits, more
-- than an integer of 64 bits has.
--
-- The traversal of the runtime graph takes fuel: the number of affected ids and twice the number of
-- edges, which is enough, since an id joins the queue at the start or as an end of an edge that was
-- not visited before.
--
-- Parameters. The check publisher is any function from the packet and its evidence to an error or
-- none; an analyzer any function from a file and its content to mutations or an error; a request's
-- body is what the JSON decoder makes of it. The authenticators are over any SHA-256, HMAC, RSA
-- verification, base64, PEM and x509 parsers and any environment; the configuration over any YAML
-- decoder. The server for agents is over any JSON decoder, and the resolution of options over any
-- file system. The pipelines are over any bus, GitHub service and files.
--
-- Not modelled: the Postgres repository, NATS, the GitHub client, telemetry, the generated gRPC code,
-- the command line and the servers' start-up, which are input and output or code of other parties;
-- of the mutation engine the analyzers; of the memory repository the log of events; the text of the
-- GitHub check; of the tools for agents their descriptions, and that a panic of one is contained.
pub mod Prelude
pub mod Text
pub mod Domain
pub mod Graph
pub mod Lanes
pub mod Policy
pub mod Risk
pub mod Access
pub mod Store
pub mod Diff
pub mod Mutations
pub mod Ingest
pub mod Settings
pub mod Pipeline
pub mod Conflict
pub mod Scan
pub mod Resolve
pub mod Mcp
pub mod ControlPlane
pub mod Tests
