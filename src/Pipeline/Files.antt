-- ===== src/Pipeline/Files.antt =====
-- internal/ingest/files.go, of which internal/scan/scan.go has a copy: the files of a packet.
use merger.Prelude.{◌+◌, List, map, if◌then◌else◌, ◌==◌, ◌||◌}
use merger.Text.{Str, str_key, lit, to_lower}
use merger.Mutations.Paths.{ext}
use merger.Domain.{ChangedFile}
use merger.Diff

unfoldable pub language_from_path : Str → Str
unfolding to_lower ext lit
language_from_path path =
    let e = to_lower (ext path) in
    if e == lit ".go"
    then lit "go"
    else if e == lit ".sql"
    then lit "sql"
    else if e == lit ".yaml" || e == lit ".yml"
    then lit "yaml"
    else if e == lit ".proto"
    then lit "proto"
    else lit "unknown"

abbrev pub changed_file : Diff.File → ChangedFile
changed_file f = record {
  path = f.path;
  previous_path = f.previous_path;
  language = language_from_path f.path;
  status = f.status;
  additions = f.additions;
  deletions = f.deletions;
  changes = f.additions + f.deletions;
  patch = f.patch;
}

unfoldable pub map_changed_files : List Diff.File → List ChangedFile
unfolding language_from_path
map_changed_files = map changed_file
