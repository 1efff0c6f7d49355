-- ===== src/Mutations/Extract.antt =====
-- extractors.go, and `extractSignals` of engine_helpers.go.
use merger.Prelude.{ℕ, Bool, ◌||◌, List, [], ◌∷◌, ◌++◌, any, ◌==◌, if◌then◌else◌, Result, ok, ◌>>=◌}
use merger.Text.{Str, str_key, lit, to_lower, contains, equal_fold}
use merger.Domain.{ChangedFile, MutationSignal}
use merger.Mutations.Paths.{ext, base}

-- `SignalExtractor`; an error is a text.
pub record Extractor : Type 0 where
  pub supports : ChangedFile → Bool
  pub extract : ChangedFile → Result Str (List MutationSignal)

abbrev signal : Str → Str → ℕ → List MutationSignal
signal source value weight = record { source = source; value = value; weight = weight } ∷ []

abbrev go_patch_signals : Extractor
go_patch_signals = record {
  supports = λ f. equal_fold (ext f.path) (lit ".go");
  extract = λ f.
      let patch = to_lower f.patch in
      ok (
        (if contains patch (lit "func ")
          then signal (lit "go_patch") (lit "go:function_change") 1
          else [])
        ++ (if contains patch (lit "jwt")
              || (contains patch (lit "token") || contains patch (lit "authorize"))
            then signal (lit "go_patch") (lit "go:auth_symbol") 2
            else []));
}

abbrev sql_signals : Extractor
sql_signals = record {
  supports = λ f. equal_fold (ext f.path) (lit ".sql");
  extract = λ f.
      let patch = to_lower f.patch in
      ok (
        if contains patch (lit "alter table")
          || (contains patch (lit "create table") || contains patch (lit "drop table"))
        then signal (lit "sql_patch") (lit "sql:ddl") 3
        else []);
}

abbrev runtime_keys : List Str
runtime_keys =
    lit "replicas:"
    ∷ lit "resources:"
    ∷ lit "image:"
    ∷ lit "env:"
    ∷ lit "ingress:"
    ∷ lit "rollout:"
    ∷ []

abbrev yaml_signals : Extractor
yaml_signals = record {
  supports = λ f. to_lower (ext f.path) == lit ".yaml" || to_lower (ext f.path) == lit ".yml";
  extract = λ f.
      let patch = to_lower f.patch in
      ok (
        (if any (contains patch) runtime_keys
          then signal (lit "yaml_patch") (lit "yaml:runtime_key") 2
          else [])
        ++ (if contains (to_lower f.path) (lit "openapi")
            then signal (lit "yaml_path") (lit "api:contract_surface") 3
            else []));
}

abbrev manifests : List Str
manifests = lit "go.mod" ∷ lit "go.sum" ∷ lit "package.json" ∷ lit "package-lock.json" ∷ []

abbrev manifest_signals : Extractor
manifest_signals = record {
  supports = λ f. any (λ name. to_lower (base f.path) == name) manifests;
  extract = λ f. ok (signal (lit "manifest") (lit "manifest:dependency") 2);
}

unfoldable pub default_extractors : List Extractor
default_extractors = go_patch_signals ∷ sql_signals ∷ yaml_signals ∷ manifest_signals ∷ []

-- The loop over the extractors.
abbrev run_extractors :
    ChangedFile → List Extractor → List MutationSignal → Result Str (List MutationSignal)
run_extractors f [] signals = ok signals
run_extractors f (x ∷ xs) signals =
    if x.supports f
    then x.extract f >>= (λ more. run_extractors f xs (signals ++ more))
    else run_extractors f xs signals

unfoldable pub extract_signals : List Extractor → ChangedFile → Result Str (List MutationSignal)
extract_signals extractors f =
    run_extractors f extractors (signal (lit "path") (to_lower (base f.path)) 1)
