-- ===== src/Diff/Lines.antt =====
-- parser.go: the numbers of added and deleted lines of a file are those of its patch.
use merger.Prelude.{
  ℕ, ◌≡◌, Bool, List, [], ◌∷◌, Option, none, some, if◌then◌else◌, sum_by, nat_key, All,
}
use merger.Text.{Str, join}
use merger.Diff.{File, State, is_addition, is_deletion}

abbrev one_if : Bool → ℕ
one_if b = if b then 1 else 0

-- A file as it is read off the lines of its patch.
pub record Reads (f : File) (lines : List Str) : Type 0 where
  pub additions : f.additions ≡ sum_by (λ line. one_if (is_addition line)) lines
  pub deletions : f.deletions ≡ sum_by (λ line. one_if (is_deletion line)) lines

pub record IsRead (f : File) : Type 0 where
  pub lines : List Str
  pub patch : f.patch ≡ join (10 ∷ []) lines
  pub counts : Reads f lines

abbrev Reading : Option File → List Str → Type 0
Reading none lines = lines ≡ []
Reading (some f) lines = Reads f lines

-- The state of the loop, in pieces.
record IsReading (s : State) : Type 0 where
  done : All IsRead s.files
  reading : Reading s.current s.patch
