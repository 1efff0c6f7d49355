-- ===== src/Tests/MutationRuns.antt =====
-- Runs of the mutation engine.
use merger.Prelude.{ℕ, ◌≡◌, refl, List, [], ◌∷◌, Bool, true, any, ok, insertion_order}
use mathlib.Core.List.{Memᴰ}
use merger.Text.{Str, lit}
use merger.Domain.{ChangedFile, FileStatus, Mutation, MutationKind, MutationSignal, Severity}
use merger.Mutations.{Rule, RuleBasedEngine, matches, extract_signals, classify}
use merger.Mutations.Detects.{covering, classify-covers}

abbrev auth_rule : Rule
auth_rule = record {
  name = lit "auth-surface";
  title = lit "auth";
  description = [];
  kind = MutationKind.auth_behavior_change;
  severity = Severity.high;
  confidence = 850;
  path_prefixes = [];
  path_contains = lit "auth/" ∷ [];
  path_suffixes = [];
  file_globs = [];
  required_signals = [];
}

abbrev engine : RuleBasedEngine
engine = record { rules = auth_rule ∷ []; extractors = []; analyzers = [] }

abbrev login : ChangedFile
login = record {
  path = lit "auth/login.go";
  previous_path = [];
  language = lit "go";
  status = FileStatus.modified;
  additions = 1;
  deletions = 0;
  changes = 1;
  patch = [];
}

abbrev path_signals : List MutationSignal
path_signals = record { source = lit "path"; value = lit "login.go"; weight = 1 } ∷ []

abbrev ids : ℕ → Str
ids n = lit "mut"

abbrev no_content : Str → Str
no_content path = []

abbrev detected : Mutation
detected = record {
  id = lit "mut";
  kind = MutationKind.auth_behavior_change;
  severity = Severity.high;
  confidence = 850;
  title = lit "auth";
  description = [];
  files = lit "auth/login.go" ∷ [];
  signals = path_signals;
  detector = lit "auth-surface";
}

login_signals : extract_signals [] login ≡ ok path_signals
unfolding extract_signals lit merger.Text.to_lower merger.Mutations.base merger.Text.trim_left
    merger.Text.split
login_signals = refl

login_matches : matches auth_rule login.path path_signals ≡ true
unfolding matches lit merger.Text.contains merger.Text.to_lower
login_matches = refl

login_classified : classify insertion_order ids engine no_content (login ∷ []) ≡ ok (detected ∷ [])
unfolding classify lit merger.Text.contains merger.Text.to_lower merger.Prelude.lookup
    merger.Prelude.put merger.Mutations.base merger.Text.trim_left merger.Text.split
login_classified = refl

classify-covers_example : any (covering auth_rule login.path) (detected ∷ []) ≡ true
classify-covers_example =
    classify-covers insertion_order ids engine no_content (login ∷ []) (detected ∷ []) auth_rule
      login path_signals login_classified (Memᴰ.head refl) (Memᴰ.head refl) login_signals
      login_matches
