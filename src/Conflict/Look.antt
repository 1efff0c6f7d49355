-- ===== src/Conflict/Look.antt =====
-- analyzer.go: what the loop over the files collects.
use merger.Prelude.{
  ℕ, ◌≡◌, refl, ap, ◌∙◌, Bool, true, false, not, ◌&&◌, ◌||◌, List, [], ◌∷◌, any, is_empty,
  if◌then◌else◌, sum_by, arith,
}
use merger.Text.{Str, str_key}
use merger.Domain.{ChangePacket, ChangedFile}
use merger.Conflict.{
  Found, nothing_found, normalized_path, has_conflict_markers, is_policy_sensitive, push_if, note,
  look, overlaps,
}

abbrev pub points_if : Bool → ℕ → ℕ
points_if b n = if b then n else 0

-- A file that the loop looks at and that has the property.
abbrev pub looked_at : (ChangedFile → Bool) → ChangedFile → Bool
looked_at f file = not (is_empty (normalized_path file.path)) && f file

abbrev pub marked : ChangedFile → Bool
marked = looked_at (λ f. has_conflict_markers f.patch)

abbrev pub sensitive_file : ChangedFile → Bool
sensitive_file = looked_at (λ f. is_policy_sensitive (normalized_path f.path))

-- The number of normalized paths that two or more files of the packet have.
abbrev pub overlap_count : ChangePacket → ℕ
overlap_count p = sum_by (λ e. points_if (overlaps e) 1) (look p.files nothing_found).seen

push_if_empty :
    (b : Bool) (x : Str) (xs : List Str) → is_empty (push_if b x xs) ≡ (not b && is_empty xs)
push_if_empty b x [] = ground arith
push_if_empty b x (y ∷ xs) = ground arith

pub look-markers :
    (fs : List ChangedFile) (found : Found)
    → is_empty (look fs found).marker_paths ≡ (not (any marked fs) && is_empty found.marker_paths)
unfolding look
look-markers [] found = refl
look-markers (f ∷ fs) found = ground (
  arith,
  look-markers fs found,
  look-markers fs (note found (normalized_path f.path) f),
  push_if_empty (has_conflict_markers f.patch) f.path found.marker_paths,
)

noted_sensitive :
    (b : Bool) (found : Found) (path : Str) (f : ChangedFile)
    → is_empty (if b then found else note found path f).sensitive
      ≡ (not (not b && is_policy_sensitive path) && is_empty found.sensitive)
noted_sensitive true found path f = refl
noted_sensitive false found path f = push_if_empty (is_policy_sensitive path) f.path found.sensitive

neither : (x y z : Bool) → (not x && (not y && z)) ≡ (not (y || x) && z)
neither x y z = ground arith

pub look-sensitive :
    (fs : List ChangedFile) (found : Found)
    → is_empty (look fs found).sensitive ≡ (not (any sensitive_file fs) && is_empty found.sensitive)
unfolding look
look-sensitive [] found = refl
look-sensitive (f ∷ fs) found =
    let path = normalized_path f.path in
    let next = if is_empty path then found else note found path f in
    look-sensitive fs next
    ∙ ap (λ b. not (any sensitive_file fs) && b) (noted_sensitive (is_empty path) found path f)
    ∙ neither (any sensitive_file fs) (sensitive_file f) (is_empty found.sensitive)

pub present : (e a : Bool) → e ≡ (not a && true) → not e ≡ a
present e a h = ground arith
