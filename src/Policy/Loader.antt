-- ===== src/Policy/Loader.antt =====
-- internal/policy/loader.go. The reader of files and the YAML decoder, which refuses unknown fields,
-- are parameters.
use merger.Prelude.{Bool, Option, none, some, if◌then◌else◌, Result, ok, err}
use merger.Text.{Str}
use merger.Policy.Model.{Config}
use merger.Policy.Validate.{PolicyError, validate}

pub data LoadError : Type 0 where
  unreadable bad_yaml trailing_document : LoadError
  invalid : PolicyError → LoadError

-- The first document, and whether another one follows.
pub record Decoded : Type 0 where
  pub config : Config
  pub trailing : Bool

abbrev checked : Config → Option PolicyError → Result LoadError Config
checked config none = ok config
checked config (some e) = err (LoadError.invalid e)

abbrev decoded : Option Decoded → Result LoadError Config
decoded none = err LoadError.bad_yaml
decoded (some d) =
    if d.trailing then err LoadError.trailing_document else checked d.config (validate d.config)

abbrev read : (Str → Option Decoded) → Option Str → Result LoadError Config
read decode none = err LoadError.unreadable
read decode (some raw) = decoded (decode raw)

unfoldable pub load_config :
    (Str → Option Str) → (Str → Option Decoded) → Str → Result LoadError Config
unfolding validate
load_config read_file decode path = read decode (read_file path)
