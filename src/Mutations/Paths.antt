-- ===== src/Mutations/Paths.antt =====
-- Go's `filepath` and `path`, on paths with slashes, as far as the mutation engine uses them.
use merger.Prelude.{
  ℕ, Bool, false, not, ◌&&◌, ◌||◌, List, [], ◌∷◌, ◌==◌, nat_key, is_empty, if◌then◌else◌,
}
use mathlib.Core.List.{reverse}
use merger.Text.{Str, lit, split, trim_left}

-- `filepath.Ext`, on the reversed path: what follows the last dot of the last element.
abbrev ext_from : Str → Str → Str
ext_from [] acc = []
ext_from (c ∷ s) acc =
    let rest = ext_from s (c ∷ acc) in
    if c == b'/' then [] else if c == b'.' then b'.' ∷ acc else rest

unfoldable pub ext : Str → Str
ext path = ext_from (reverse path) []

-- `filepath.Base`.
abbrev last_or : Str → List Str → Str
last_or s [] = s
last_or s (part ∷ parts) = last_or part parts

abbrev base_of : Str → Str → Str
base_of [] _ = lit "."
base_of (_ ∷ _) [] = lit "/"
base_of (_ ∷ _) (c ∷ s) = last_or [] (split b'/' (c ∷ s))

unfoldable pub base : Str → Str
base path = base_of path (reverse (trim_left (λ c. c == b'/') (reverse path)))

-- `path.Match` for patterns without `?`, `[` and `\`, which no rule of the catalogue has: `*` stands
-- for any bytes but the slash.
star : (Str → Bool) → Str → Bool
star rest [] = rest []
star rest (c ∷ s) = rest (c ∷ s) || (not (c == b'/') && star rest s)

abbrev literal : ℕ → (Str → Bool) → Str → Bool
literal c rest [] = false
literal c rest (d ∷ s) = c == d && rest s

unfoldable pub glob_match : Str → Str → Bool
unfolding star
glob_match [] = is_empty
glob_match (c ∷ pattern) =
    let rest = glob_match pattern in if c == b'*' then star rest else literal c rest
