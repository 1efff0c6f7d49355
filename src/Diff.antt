-- ===== src/Diff.antt =====
-- pkg/diff/parser.go: unified diffs.
pub mod Counts
pub mod Lines
use merger.Prelude.{
  ℕ, ◌+◌, Bool, true, false, not, ◌&&◌, ◌||◌, List, [], ◌∷◌, ◌++◌, map, Option, none, some,
  if◌then◌else◌, nat_key,
}
use merger.Text.{Str, lit, is_blank, has_prefix, trim_prefix, split, join}
use merger.Domain.{FileStatus}

-- `File`, its status the one of the domain with the same names.
pub record File : Type 0 where
  pub path : Str
  pub previous_path : Str
  pub status : FileStatus
  pub additions : ℕ
  pub deletions : ℕ
  pub patch : Str

-- The variables of the loop: the files so far, and the current file with the lines of its patch.
pub record State : Type 0 where
  pub files : List File
  pub current : Option File
  pub patch : List Str

abbrev newline : Str
newline = 10 ∷ []

-- `flush`.
abbrev pub flushed : List File → List Str → Option File → State
flushed files patch none = record { files = files; current = none; patch = patch }
flushed files patch (some f) = record {
  files = files ++ record f { patch = join newline patch } ∷ [];
  current = none;
  patch = [];
}

unfoldable pub flush : State → State
flush s = flushed s.files s.patch s.current

-- The paths of a `diff --git` line, whose fields stand between blanks.
unfoldable pub named_by : List Str → File
named_by (_ ∷ _ ∷ a ∷ b ∷ _) = record {
  path = trim_prefix b (lit "b/");
  previous_path = trim_prefix a (lit "a/");
  status = FileStatus.modified;
  additions = 0;
  deletions = 0;
  patch = [];
}
named_by _ = record {
  path = [];
  previous_path = [];
  status = FileStatus.modified;
  additions = 0;
  deletions = 0;
  patch = [];
}

unfoldable pub is_addition : Str → Bool
is_addition line = has_prefix line (lit "+") && not (has_prefix line (lit "+++"))

unfoldable pub is_deletion : Str → Bool
is_deletion line = has_prefix line (lit "-") && not (has_prefix line (lit "---"))

-- The `switch` on a line of the current file.
unfoldable pub read_line : Str → File → File
unfolding is_addition is_deletion
read_line line f =
    if has_prefix line (lit "new file mode")
    then record f { status = FileStatus.added }
    else if has_prefix line (lit "deleted file mode")
    then record f { status = FileStatus.removed }
    else if has_prefix line (lit "rename from ")
    then record f {
      previous_path = trim_prefix line (lit "rename from ");
      status = FileStatus.renamed;
    }
    else if has_prefix line (lit "rename to ")
    then record f { path = trim_prefix line (lit "rename to "); status = FileStatus.renamed }
    else if is_addition line
    then record f { additions = f.additions + 1 }
    else if is_deletion line
    then record f { deletions = f.deletions + 1 }
    else f

abbrev pub is_header : Str → Bool
is_header line = has_prefix line (lit "diff --git ")

-- A `diff --git` line ends the current file and begins the next.
unfoldable pub begin_file : Str → State → State
unfolding flush named_by
begin_file line s =
    let done = flush s in
    record {
      files = done.files;
      current = some (named_by (split 32 line));
      patch = done.patch ++ line ∷ [];
    }

abbrev pub continued : Str → State → Option File → State
continued line s none = s
continued line s (some f) = record s {
  current = some (read_line line f);
  patch = s.patch ++ line ∷ [];
}

unfoldable pub step : Str → State → State
unfolding begin_file read_line
step line s = if is_header line then begin_file line s else continued line s s.current

unfoldable pub read_lines : List Str → State → State
unfolding step
read_lines [] s = s
read_lines (line ∷ lines) s = read_lines lines (step line s)

abbrev pub initial : State
initial = record { files = []; current = none; patch = [] }

unfoldable pub parse_unified : Str → List File
unfolding read_lines flush
parse_unified input =
    if is_blank input then [] else (flush (read_lines (split 10 input) initial)).files
