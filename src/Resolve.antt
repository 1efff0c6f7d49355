-- ===== src/Resolve.antt =====
-- internal/resolve: from the root of a repository and optional paths to the options of a scan.
use merger.Prelude.{
  Bool, true, false, not, List, [], ◌∷◌, Option, none, some, ◌==◌, if◌then◌else◌, Result, ok, err,
  ◌>>=◌,
}
use merger.Text.{Str, str_key, lit, cut}
use merger.Domain.{RepoRef, Author}
use merger.Policy
use merger.Policy.Loader
use merger.Policy.Loader.{LoadError, load_config}
use merger.Settings.Model
use merger.Settings.Model.{defaults}
use merger.Settings.Services
use merger.Settings.Services.{ConfigError, validate, load}
use merger.Scan.{ScanOptions}

-- The file system, the functions of filepath and the decoders. `stat` tells whether a path is a
-- directory, and `none` is its error.
pub record Files : Type 0 where
  pub stat : Str → Option Bool
  pub read_file : Str → Option Str
  pub join_path : Str → Str → Str
  pub is_abs : Str → Bool
  pub decode_config : Model.Config → Str → Option Services.Decoded
  pub decode_policy : Str → Option Loader.Decoded

pub data ResolveError : Type 0 where
  no_such_path : Str → ResolveError
  no_config_in : Str → ResolveError
  bad_defaults : ConfigError → ResolveError
  in_config : Str → ConfigError → ResolveError
  in_policy : Str → LoadError → ResolveError

unfoldable pub config_candidates : List Str
unfolding lit
config_candidates =
    lit "merger.yaml"
    ∷ lit "merger.yml"
    ∷ lit "merger.json"
    ∷ lit ".merger/merger.yaml"
    ∷ lit ".merger/merger.yml"
    ∷ lit ".merger/merger.json"
    ∷ lit ".merger/config.yaml"
    ∷ lit ".merger/config.yml"
    ∷ lit ".merger/config.json"
    ∷ []

unfoldable pub config_dir_candidates : List Str
unfolding lit
config_dir_candidates =
    lit "merger.yaml"
    ∷ lit "merger.yml"
    ∷ lit "merger.json"
    ∷ lit "config.yaml"
    ∷ lit "config.yml"
    ∷ lit "config.json"
    ∷ []

abbrev is_file : Option Bool → Bool
is_file none = false
is_file (some is_dir) = not is_dir

unfoldable pub file_exists : Files → Str → Bool
file_exists f path = is_file (f.stat path)

-- The first candidate below a directory that is a file.
unfoldable pub first_existing : Files → Str → List Str → Option Str
unfolding file_exists
first_existing f dir [] = none
first_existing f dir (name ∷ names) =
    if file_exists f (f.join_path dir name)
    then some (f.join_path dir name)
    else first_existing f dir names

abbrev found_in : Str → Option Str → Result ResolveError Str
found_in dir none = err (ResolveError.no_config_in dir)
found_in dir (some path) = ok path

abbrev found_or_none : Option Str → Str
found_or_none none = []
found_or_none (some path) = path

abbrev explicit_path : Files → Str → Option Bool → Result ResolveError Str
explicit_path f explicit none = err (ResolveError.no_such_path explicit)
explicit_path f explicit (some is_dir) =
    if is_dir
    then found_in explicit (first_existing f explicit config_dir_candidates)
    else ok explicit

-- The empty path stands for no file.
unfoldable pub discover_config_path : Files → Str → Str → Result ResolveError Str
unfolding first_existing
discover_config_path f root explicit =
    if explicit == []
    then ok (found_or_none (first_existing f root config_candidates))
    else explicit_path f explicit (f.stat explicit)

abbrev or_bad_defaults : Option ConfigError → Result ResolveError (Model.Config × Str)
or_bad_defaults none = ok (defaults, [])
or_bad_defaults (some e) = err (ResolveError.bad_defaults e)

abbrev loaded : Str → Result ConfigError Model.Config → Result ResolveError (Model.Config × Str)
loaded path (ok cfg) = ok (cfg, path)
loaded path (err e) = err (ResolveError.in_config path e)

-- `Config`: the configuration and the path of its file.
unfoldable pub config : Files → Str → Str → Result ResolveError (Model.Config × Str)
unfolding discover_config_path validate load
config f root explicit = discover_config_path f root explicit >>= (λ path.
    if path == []
    then or_bad_defaults (validate defaults)
    else loaded path (load f.read_file f.decode_config path))

unfoldable pub policy_path : Files → Str → Str → Model.Config → Str
unfolding file_exists
policy_path f root explicit cfg =
    let path =
      if f.is_abs cfg.policy_path then cfg.policy_path else f.join_path root cfg.policy_path in
    if not (explicit == [])
    then explicit
    else if cfg.policy_path == []
    then []
    else if file_exists f path
    then path
    else []

abbrev loaded_policy :
    Str → Result LoadError Policy.Config → Result ResolveError (Policy.Config × Str × Bool)
loaded_policy path (ok p) = ok (p, path, true)
loaded_policy path (err e) = err (ResolveError.in_policy path e)

-- `Policy`: the rules, the path of their file, and whether there is one.
unfoldable pub policy :
    Files → Str → Str → Model.Config → Result ResolveError (Policy.Config × Str × Bool)
unfolding policy_path load_config
policy f root explicit cfg =
    let path = policy_path f root explicit cfg in
    if path == []
    then ok (record { policies = [] }, [], false)
    else loaded_policy path (load_config f.read_file f.decode_policy path)

abbrev no_author : Author
no_author = record { login = []; display_name = []; email = []; kind = [] }

abbrev halves : Str → Option (Str × Str) → RepoRef
halves raw none = record { owner = []; name = raw; full_name = raw }
halves raw (some (owner, name)) = record { owner = owner; name = name; full_name = raw }

-- `RepoRef`; the empty text gives the empty reference.
unfoldable pub repo_ref : Str → RepoRef
unfolding cut
repo_ref raw = halves raw (cut b'/' raw)

-- `ScanOptions`, with whether a policy file was found.
unfoldable pub scan_options :
    Files → Str → Str → Str → Str → Str → Str → Result ResolveError (ScanOptions × Bool)
unfolding config policy repo_ref
scan_options f root config_path policy_file repo ref diff =
    config f root config_path >>= (λ (cfg, _).
      policy f root policy_file cfg >>= (λ (rules, _, found). ok (
        record {
          diff = diff;
          repo = repo_ref repo;
          ref = ref;
          base_sha = [];
          current_base_sha = [];
          title = [];
          author = no_author;
          policy = rules;
          lanes = cfg.lanes;
          enable_codeowners = cfg.runtime_graph.enable_codeowners;
        },
        found,
      )))
