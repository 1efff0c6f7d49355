-- ===== src/Mutations/Index.antt =====
-- mutation_index.go.
use merger.Prelude.{
  ℕ, ◌+◌, Bool, ◌&&◌, List, [], ◌∷◌, ◌++◌, any, ◌==◌, ltb, if◌then◌else◌, Dict, lookup, put, Option,
  none, some, is_empty,
}
use merger.Text.{Str, str_key}
use merger.Domain.{Mutation, MutationKind, kind_key, MutationSignal, Severity}

unfoldable pub severity_rank : Severity → ℕ
severity_rank Severity.critical = 4
severity_rank Severity.high = 3
severity_rank Severity.medium = 2
severity_rank _ = 1

unfoldable pub append_unique_strings : List Str → List Str → List Str
append_unique_strings values [] = values
append_unique_strings values (c ∷ candidates) =
    append_unique_strings (if any (λ value. value == c) values then values else values ++ c ∷ [])
      candidates

abbrev same_signal : MutationSignal → MutationSignal → Bool
same_signal c value = value.source == c.source && value.value == c.value

unfoldable pub append_unique_signals :
    List MutationSignal → List MutationSignal → List MutationSignal
append_unique_signals values [] = values
append_unique_signals values (c ∷ candidates) =
    append_unique_signals (if any (same_signal c) values then values else values ++ c ∷ [])
      candidates

abbrev pub or_text : Str → Str → Str
or_text [] other = other
or_text (c ∷ s) other = c ∷ s

-- A mutation that is in the index already takes in another of its kind.
unfoldable pub merged : Mutation → Mutation → Mutation
unfolding append_unique_strings append_unique_signals severity_rank
merged current candidate = record current {
  files = append_unique_strings current.files candidate.files;
  signals = append_unique_signals current.signals candidate.signals;
  confidence =
      if ltb current.confidence candidate.confidence
      then candidate.confidence
      else current.confidence;
  severity =
      if ltb (severity_rank current.severity) (severity_rank candidate.severity)
      then candidate.severity
      else current.severity;
  title = or_text current.title candidate.title;
  description = or_text current.description candidate.description;
  detector = or_text current.detector candidate.detector;
}

-- The index, with the number of ids that have been drawn.
pub record Ids : Type 0 where
  pub index : Dict MutationKind Mutation
  pub drawn : ℕ

abbrev pub entered : (ℕ → Str) → Ids → Mutation → Option Mutation → Ids
entered ids s m none = record {
  index = put m.kind (record m { id = or_text m.id (ids s.drawn) }) s.index;
  drawn = if is_empty m.id then s.drawn + 1 else s.drawn;
}
entered ids s m (some current) = record s { index = put m.kind (merged current m) s.index }

unfoldable pub add_mutation : (ℕ → Str) → Ids → Mutation → Ids
unfolding merged
add_mutation ids s m = entered ids s m (lookup m.kind s.index)
