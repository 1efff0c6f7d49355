-- ===== src/Diff/Counts.antt =====
-- parser.go: how files and lines of a diff are counted.
use merger.Prelude.{
  ℕ, ◌+◌, ◌≡◌, Bool, false, List, [], ◌∷◌, Option, none, some, if◌then◌else◌, sum_by, arith, length,
  length-append, nat_key,
}
use merger.Text.{Str, is_blank, split, join}
use merger.Diff.{
  File, State, initial, flush, is_header, begin_file, step, read_lines, parse_unified, flushed,
}

abbrev one_if : Bool → ℕ
one_if b = if b then 1 else 0

-- The lines that start a file.
abbrev pub headers : List Str → ℕ
headers = sum_by (λ line. one_if (is_header line))

abbrev open_files : Option File → ℕ
open_files none = 0
open_files (some f) = 1

step-files :
    (line : Str) (s : State)
    → length (step line s).files + open_files (step line s).current
      ≡ length s.files + open_files s.current + one_if (is_header line)
unfolding step begin_file flush
step-files line s = opened line s.files s.current s.patch
  where
    opened :
        (line : Str) (fs : List File) (c : Option File) (ps : List Str)
        → length (step line (record { files = fs; current = c; patch = ps })).files
            + open_files (step line (record { files = fs; current = c; patch = ps })).current
          ≡ length fs + open_files c + one_if (is_header line)
    opened line fs none ps = ground (arith, length-append fs)
    opened line fs (some f) ps =
        ground (arith, length-append fs (record f { patch = join (10 ∷ []) ps } ∷ []))

flushed_files :
    (fs : List File) (ps : List Str) (c : Option File)
    → length (flushed fs ps c).files ≡ length fs + open_files c
flushed_files fs ps none = omega arith
flushed_files fs ps (some f) =
    omega (arith, length-append fs (record f { patch = join (10 ∷ []) ps } ∷ []))

read_lines-files :
    (lines : List Str) (s : State)
    → length (flush (read_lines lines s)).files
      ≡ length s.files + open_files s.current + headers lines
unfolding read_lines flush
read_lines-files [] s = omega (arith, flushed_files s.files s.patch s.current)
read_lines-files (line ∷ lines) s =
    omega (arith, read_lines-files lines (step line s), step-files line s)

-- A diff that is not blank gives as many files as it has lines that begin with `diff --git `.
parse_unified-files :
    (input : Str) → is_blank input ≡ false → length (parse_unified input) ≡ headers (split 10 input)
unfolding parse_unified
parse_unified-files input h = rw h (omega (arith, read_lines-files (split 10 input) initial))
