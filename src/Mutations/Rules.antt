-- ===== src/Mutations/Rules.antt =====
-- rule_catalog.go and rule_matchers.go.
use merger.Prelude.{ℕ, Bool, ◌||◌, List, [], ◌∷◌, any}
use merger.Text.{Str, lit, to_lower, has_prefix, contains, has_suffix, trim_prefix, equal_fold}
use merger.Domain.{MutationKind, MutationSignal, Severity}
use merger.Mutations.Paths.{glob_match}

-- Confidences are in thousandths.
pub record Rule : Type 0 where
  pub name : Str
  pub title : Str
  pub description : Str
  pub kind : MutationKind
  pub severity : Severity
  pub confidence : ℕ
  pub path_prefixes : List Str
  pub path_contains : List Str
  pub path_suffixes : List Str
  pub file_globs : List Str
  pub required_signals : List Str

unfoldable pub contains_any_prefix : Str → List Str → Bool
contains_any_prefix value = any (λ prefix. has_prefix value (to_lower prefix))

unfoldable pub contains_any_substring : Str → List Str → Bool
contains_any_substring value = any (λ pattern. contains value (to_lower pattern))

unfoldable pub has_any_suffix : Str → List Str → Bool
has_any_suffix value = any (λ suffix. has_suffix value (to_lower suffix))

abbrev matches_glob : Str → Str → Bool
matches_glob value glob =
    let normalized = trim_prefix (to_lower glob) (lit "**/") in
    glob_match normalized value || has_suffix value (trim_prefix normalized (lit "*"))

unfoldable pub matches_any_glob : Str → List Str → Bool
matches_any_glob value = any (matches_glob value)

abbrev signalled : Rule → List MutationSignal → Bool
signalled r = any (λ s. any (λ required. equal_fold s.value required) r.required_signals)

unfoldable pub matches : Rule → Str → List MutationSignal → Bool
unfolding contains_any_prefix contains_any_substring has_any_suffix matches_any_glob
matches r file_path signals =
    let lower = to_lower file_path in
    (contains_any_prefix lower r.path_prefixes
      || (contains_any_substring lower r.path_contains
          || (has_any_suffix lower r.path_suffixes || matches_any_glob lower r.file_globs)))
    || signalled r signals

-- `DefaultRules`.
unfoldable pub default_rules : List Rule
default_rules =
    record {
      name = lit "auth-surface";
      title = lit "authentication or authorization behavior change";
      description = lit "Changes touch credential, token, policy, or auth control paths.";
      kind = MutationKind.auth_behavior_change;
      severity = Severity.high;
      confidence = 850;
      path_prefixes = [];
      path_contains = lit "auth/" ∷ lit "jwt" ∷ lit "oauth" ∷ lit "rbac" ∷ lit "acl" ∷ [];
      path_suffixes = [];
      file_globs = [];
      required_signals = lit "go:auth_symbol" ∷ [];
    }
    ∷ record {
      name = lit "schema-ddl";
      title = lit "database schema mutation";
      description = lit "DDL or migration assets changed.";
      kind = MutationKind.database_schema;
      severity = Severity.high;
      confidence = 900;
      path_prefixes = lit "migrations/" ∷ lit "db/migrations/" ∷ [];
      path_contains = [];
      path_suffixes = lit ".sql" ∷ [];
      file_globs = [];
      required_signals = lit "sql:ddl" ∷ [];
    }
    ∷ record {
      name = lit "runtime-config";
      title = lit "runtime or deploy-time configuration mutation";
      description = lit "Runtime or deploy-time configuration changed.";
      kind = MutationKind.runtime_config;
      severity = Severity.medium;
      confidence = 800;
      path_prefixes = [];
      path_contains = lit "helm/" ∷ lit "k8s/" ∷ lit "deploy/" ∷ lit "config/" ∷ [];
      path_suffixes = [];
      file_globs = lit "**/values.yaml" ∷ lit "**/values.yml" ∷ [];
      required_signals = lit "yaml:runtime_key" ∷ [];
    }
    ∷ record {
      name = lit "api-contract";
      title = lit "API contract mutation";
      description = lit "Public or internal API definition changed.";
      kind = MutationKind.api_contract;
      severity = Severity.high;
      confidence = 880;
      path_prefixes = [];
      path_contains = [];
      path_suffixes = lit "openapi.yaml" ∷ lit "openapi.yml" ∷ lit ".proto" ∷ [];
      file_globs = lit "**/openapi.yaml" ∷ lit "**/openapi.yml" ∷ lit "**/*.proto" ∷ [];
      required_signals = lit "api:contract_surface" ∷ [];
    }
    ∷ record {
      name = lit "dependency";
      title = lit "dependency graph mutation";
      description = lit "Module or dependency manifest changed.";
      kind = MutationKind.dependency;
      severity = Severity.medium;
      confidence = 920;
      path_prefixes = [];
      path_contains = [];
      path_suffixes =
          lit "go.mod" ∷ lit "go.sum" ∷ lit "package-lock.json" ∷ lit "package.json" ∷ [];
      file_globs = [];
      required_signals = [];
    }
    ∷ record {
      name = lit "deployment-workflow";
      title = lit "deployment workflow mutation";
      description = lit "CI/CD or rollout workflow changed.";
      kind = MutationKind.deployment_workflow;
      severity = Severity.high;
      confidence = 820;
      path_prefixes = [];
      path_contains = lit ".github/workflows/" ∷ lit "deployments/" ∷ [];
      path_suffixes = [];
      file_globs = [];
      required_signals = [];
    }
    ∷ record {
      name = lit "observability-surface";
      title = lit "observability contract mutation";
      description = lit "Telemetry, alerting, or dashboard behavior changed.";
      kind = MutationKind.observability_contract;
      severity = Severity.medium;
      confidence = 700;
      path_prefixes = [];
      path_contains =
          lit "telemetry/" ∷ lit "observability/" ∷ lit "alerts/" ∷ lit "dashboards/" ∷ [];
      path_suffixes = [];
      file_globs = [];
      required_signals = [];
    }
    ∷ []
