-- ===== src/Text.antt =====
-- Go's `strings` package as far as the program uses it. A string is the list of its bytes; where
-- Go folds case or trims space beyond ASCII, the model does so for ASCII only.
pub mod Laws
use Prim.Native.Char.{code}
use Prim.Native.String
use Prim.Native.String.{String}
use merger.Prelude.{
  ℕ, ◌+◌, ◌-◌, Bool, true, false, ◌&&◌, ◌||◌, List, [], ◌∷◌, ◌++◌, map, Option, none, some, leb,
  ltb, ◌==◌, Key, nat_key, if◌then◌else◌, ℕ_discrete,
}
use mathlib.Core.Option
use mathlib.Core.List.{reverse}

abbrev pub Str : Type 0
Str = List ℕ

unfoldable pub Str-discrete : Discrete Str
Str-discrete = hlevel ℕ_discrete

instance abbrev pub str_key : Key Str
str_key = record { dec = Str-discrete }

-- A literal of the source. Its line opens the comparisons that a test runs.
unfoldable pub lit : String → Str
unfolding ℕ_discrete Str-discrete
lit String.[] = []
lit (String.◌∷◌ c s) = code c ∷ lit s

lower_byte : ℕ → ℕ
lower_byte c = if leb b'A' c && leb c b'Z' then c + 32 else c

-- strings.ToLower
unfoldable pub to_lower : Str → Str
unfolding lower_byte
to_lower = map lower_byte

upper_byte : ℕ → ℕ
upper_byte c = if leb b'a' c && leb c b'z' then c - 32 else c

-- strings.ToUpper
unfoldable pub to_upper : Str → Str
unfolding upper_byte
to_upper = map upper_byte

-- strings.EqualFold
unfoldable pub equal_fold : Str → Str → Bool
unfolding to_lower
equal_fold s t = to_lower s == to_lower t

-- The bytes that strings.TrimSpace takes for space: tab, newline, \v, \f, \r and blank.
unfoldable pub is_space : ℕ → Bool
is_space c = c == 32 || (leb 9 c && leb c 13)

unfoldable pub trim_left : (ℕ → Bool) → Str → Str
trim_left p [] = []
trim_left p (c ∷ s) = let rest = trim_left p s in if p c then rest else c ∷ s

unfoldable pub trim : (ℕ → Bool) → Str → Str
unfolding trim_left
trim p s = reverse (trim_left p (reverse (trim_left p s)))

-- strings.TrimSpace
unfoldable pub trim_space : Str → Str
unfolding trim is_space
trim_space = trim is_space

-- `strings.TrimSpace(s) == ""`, the test that the validators make.
unfoldable pub is_blank : Str → Bool
unfolding trim_space
is_blank s = trim_space s == []

-- strings.HasPrefix
unfoldable pub has_prefix : Str → Str → Bool
has_prefix s [] = true
has_prefix [] (_ ∷ _) = false
has_prefix (c ∷ s) (d ∷ t) = c == d && has_prefix s t

-- strings.TrimPrefix; `drop_prefix s t` is what follows `t` in `s`, if `s` begins with `t`.
unfoldable pub drop_prefix : Str → Str → Option Str
drop_prefix s [] = some s
drop_prefix [] (_ ∷ _) = none
drop_prefix (c ∷ s) (d ∷ t) = let rest = drop_prefix s t in if c == d then rest else none

abbrev or_else : Option Str → Str → Str
or_else none s = s
or_else (some t) s = t

unfoldable pub trim_prefix : Str → Str → Str
unfolding drop_prefix
trim_prefix s t = or_else (drop_prefix s t) s

-- strings.HasSuffix
unfoldable pub has_suffix : Str → Str → Bool
unfolding has_prefix
has_suffix s t = has_prefix (reverse s) (reverse t)

-- strings.Contains
unfoldable pub contains : Str → Str → Bool
unfolding has_prefix
contains [] t = has_prefix [] t
contains (c ∷ s) t = has_prefix (c ∷ s) t || contains s t

-- strings.Split at a one-byte separator.
abbrev pub push_head : ℕ → List Str → List Str
push_head c [] = (c ∷ []) ∷ []
push_head c (part ∷ parts) = (c ∷ part) ∷ parts

unfoldable pub split : ℕ → Str → List Str
split sep [] = [] ∷ []
split sep (c ∷ s) = let rest = split sep s in if c == sep then [] ∷ rest else push_head c rest

-- strings.Join
unfoldable pub join : Str → List Str → Str
join sep [] = []
join sep (part ∷ []) = part
join sep (part ∷ (next ∷ parts)) = part ++ (sep ++ join sep (next ∷ parts))

-- `s < t` on strings.
unfoldable pub lt_str : Str → Str → Bool
lt_str s [] = false
lt_str [] (_ ∷ _) = true
lt_str (c ∷ s) (d ∷ t) =
    let rest = lt_str s t in if ltb c d then true else if c == d then rest else false

-- strings.Cut at a one-byte separator; `none` where it is not found.
abbrev pub cut_after : ℕ → Option (Str × Str) → Option (Str × Str)
cut_after c none = none
cut_after c (some (before, after)) = some (c ∷ before, after)

unfoldable pub cut : ℕ → Str → Option (Str × Str)
cut sep [] = none
cut sep (c ∷ s) = let rest = cut_after c (cut sep s) in if c == sep then some ([], s) else rest

-- Whether `strings.IndexFunc(s, unicode.IsSpace)` finds a byte.
unfoldable pub has_space : Str → Bool
unfolding is_space
has_space [] = false
has_space (c ∷ s) = is_space c || has_space s

-- strings.Fields: the texts between runs of space.
split_spaces : Str → List Str
unfolding is_space
split_spaces [] = [] ∷ []
split_spaces (c ∷ s) =
    let rest = split_spaces s in if is_space c then [] ∷ rest else push_head c rest

unfoldable pub non_empty : List Str → List Str
non_empty [] = []
non_empty ([] ∷ parts) = non_empty parts
non_empty ((c ∷ part) ∷ parts) = (c ∷ part) ∷ non_empty parts

unfoldable pub fields : Str → List Str
unfolding split_spaces non_empty
fields s = non_empty (split_spaces s)

-- strings.TrimSuffix
unfoldable pub trim_suffix : Str → Str → Str
unfolding drop_prefix
trim_suffix s t = or_else (Option.map reverse (drop_prefix (reverse s) (reverse t))) s
