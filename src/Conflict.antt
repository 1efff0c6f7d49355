-- ===== src/Conflict.antt =====
-- internal/conflictrisk/analyzer.go: the conflict assessment of a packet. `filepath` is that of a
-- system whose separator is the slash.
pub mod Look
pub mod Score
pub mod Route
use merger.Prelude.{
  ℕ, ◌+◌, ℤ, pos, Bool, true, false, not, ◌&&◌, ◌||◌, List, [], ◌∷◌, ◌++◌, map, Option, none, some,
  ltb, leb, ◌==◌, nat_key, is_empty, length, if◌then◌else◌, MapOrder, Dict, lookup, put, sort_by,
}
use merger.Prelude.Int.{◌+ℤ◌, ltb_ℤ}
use mathlib.Core.List.{reverse}
use merger.Text.{
  Str, str_key, lit, trim_space, trim_prefix, to_lower, has_prefix, contains, split, trim_left,
  lt_str,
}
use merger.Domain.{
  ChangePacket, ChangedFile, ConflictAssessment, ConflictFinding, ConflictRoute, Severity,
}
use merger.Store.{or_nil}

-- `filepath.Base`.
abbrev last_or : Str → List Str → Str
last_or s [] = s
last_or s (part ∷ parts) = last_or part parts

abbrev base_of : Str → Str → Str
base_of [] _ = lit "."
base_of (_ ∷ _) [] = lit "/"
base_of (_ ∷ _) (c ∷ s) = last_or [] (split b'/' (c ∷ s))

unfoldable pub base : Str → Str
base path = base_of path (reverse (trim_left (λ c. c == b'/') (reverse path)))

unfoldable pub normalized_path : Str → Str
normalized_path path = trim_prefix (trim_space path) (lit "./")

unfoldable pub has_conflict_markers : Str → Bool
has_conflict_markers patch =
    contains patch (lit "<<<<<<< ")
    && (contains patch (lit "=======") && contains patch (lit ">>>>>>> "))

unfoldable pub is_policy_sensitive : Str → Bool
unfolding base
is_policy_sensitive path =
    let name = to_lower (base path) in
    let lower = to_lower path in
    name == lit "codeowners"
    || (name == lit "merger.yaml"
        || (has_prefix lower (lit ".github/workflows/")
            || (has_prefix lower (lit "config/")
                || (has_prefix lower (lit "deployments/")
                    || (contains lower (lit "terraform")
                        || (contains lower (lit "migration") || contains lower (lit "schema")))))))

-- What the loop over the files collects.
pub record Found : Type 0 where
  pub seen : Dict Str (List Str)
  pub sensitive : List Str
  pub marker_paths : List Str

abbrev pub nothing_found : Found
nothing_found = record { seen = []; sensitive = []; marker_paths = [] }

abbrev pub push_if : Bool → Str → List Str → List Str
push_if b path paths = if b then paths ++ path ∷ [] else paths

abbrev pub note : Found → Str → ChangedFile → Found
note found path f = record {
  seen = put path (or_nil (lookup path found.seen) ++ f.path ∷ []) found.seen;
  sensitive = push_if (is_policy_sensitive path) f.path found.sensitive;
  marker_paths = push_if (has_conflict_markers f.patch) f.path found.marker_paths;
}

unfoldable pub look : List ChangedFile → Found → Found
unfolding normalized_path is_policy_sensitive has_conflict_markers
look [] found = found
look (f ∷ fs) found =
    let path = normalized_path f.path in
    look fs (if is_empty path then found else note found path f)

unfoldable pub set_of : List Str → Dict Str Bool → Dict Str Bool
set_of [] set = set
set_of (path ∷ paths) set = set_of paths (put path true set)

unfoldable pub unique_sorted : MapOrder → List Str → List Str
unfolding set_of
unique_sorted order paths =
    sort_by lt_str (map (λ (e : Str × Bool). e.0) (order.iterate _ (set_of paths [])))

-- One finding with its mitigation and its points.
abbrev pub add_finding : ConflictAssessment → ConflictFinding → ℕ → Str → ConflictAssessment
add_finding a finding points mitigation = record a {
  findings = a.findings ++ finding ∷ [];
  score = a.score +ℤ pos points;
  mitigations = a.mitigations ++ mitigation ∷ [];
}

abbrev pub refreshed_route : ConflictRoute → ConflictRoute
refreshed_route ConflictRoute.none = ConflictRoute.refresh_and_verify
refreshed_route route = route

abbrev pub refreshing : ConflictAssessment → ConflictAssessment
refreshing a = record a { route = refreshed_route a.route }

abbrev pub drifted : ConflictAssessment → Bool
drifted a =
    not (is_empty a.base_sha)
    && (not (is_empty a.current_base_sha) && not (a.base_sha == a.current_base_sha))

unfoldable pub add_drift : ConflictAssessment → ConflictAssessment
add_drift a =
    if drifted a
    then record (add_finding a
        (record {
          kind = lit "base_drift";
          severity = Severity.high;
          summary = lit "the target branch advanced after this change was based";
          paths = [];
        })
        25
        (lit
          "rebase or update the change onto the current target branch and rerun required checks")) {
            route = ConflictRoute.refresh_and_verify;
          }
    else a

abbrev pub overlaps : Str × List Str → Bool
overlaps e = leb 2 (length e.1)

-- One turn of the loop over the map `seen`.
unfoldable pub add_overlap : MapOrder → Str × List Str → ConflictAssessment → ConflictAssessment
unfolding unique_sorted
add_overlap order e a =
    if overlaps e
    then refreshing (
        add_finding a
          (record {
            kind = lit "overlapping_diff_entries";
            severity = Severity.medium;
            summary = lit "multiple diff entries modify the same normalized path";
            paths = unique_sorted order e.1;
          })
          20
          (lit
            "inspect overlapping diff entries before merge and verify the resulting file content"))
    else a

unfoldable pub add_overlaps :
    MapOrder → List (Str × List Str) → ConflictAssessment → ConflictAssessment
unfolding add_overlap
add_overlaps order [] a = a
add_overlaps order (e ∷ es) a = add_overlaps order es (add_overlap order e a)

unfoldable pub add_sensitive : MapOrder → List Str → ConflictAssessment → ConflictAssessment
unfolding unique_sorted
add_sensitive order paths a =
    if is_empty paths
    then a
    else refreshing (
        add_finding a
          (record {
            kind = lit "policy_sensitive_files";
            severity = Severity.medium;
            summary =
                lit
                  "the change touches files whose concurrent edits can alter policy, deployment, or ownership behavior";
            paths = unique_sorted order paths;
          })
          10
          (lit
            "confirm policy-sensitive changes against the current target branch and obtain the designated owner review"))

unfoldable pub add_markers : MapOrder → List Str → ConflictAssessment → ConflictAssessment
unfolding unique_sorted
add_markers order paths a =
    if is_empty paths
    then a
    else record (add_finding a
        (record {
          kind = lit "conflict_markers";
          severity = Severity.critical;
          summary = lit "unresolved merge-conflict markers are present in the proposed patch";
          paths = unique_sorted order paths;
        })
        45
        (lit
          "resolve conflict markers manually, inspect the resulting diff, and rerun all required verification")) {
            requires_human_resolution = true;
            route = ConflictRoute.human_resolution;
          }

abbrev pub start : ChangePacket → ConflictAssessment
start p = record {
  base_sha = p.pr.base_sha;
  current_base_sha = trim_space (or_nil (lookup (lit "current_base_sha") p.metadata));
  route = ConflictRoute.none;
  score = pos 0;
  requires_human_resolution = false;
  findings = [];
  mitigations = [];
}

abbrev pub at_most_100 : ConflictAssessment → ConflictAssessment
at_most_100 a = record a { score = if ltb_ℤ a.score (pos 100) then a.score else pos 100 }

-- `Analyze` up to the cap of the score.
unfoldable pub assess : MapOrder → ChangePacket → ConflictAssessment
unfolding look add_drift add_overlaps add_sensitive add_markers
assess order p =
    let found = look p.files nothing_found in
    add_markers order found.marker_paths (
      add_sensitive order found.sensitive
        (add_overlaps order (order.iterate _ found.seen) (add_drift (start p))))

unfoldable pub analyze : MapOrder → ChangePacket → ConflictAssessment
unfolding assess
analyze order p = at_most_100 (assess order p)
