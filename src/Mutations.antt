-- ===== src/Mutations.antt =====
-- internal/mutations: the classification of changed files by rules, signals and analyzers. An
-- analyzer and an extractor are what their interfaces say; ids come from a source of fresh texts.
pub mod Paths
mod Rules
mod Extract
mod Index
pub mod Engine
mod Covers
mod Entries
mod Keeps
pub mod Detects
unfoldable pub use Paths.{ext, base, glob_match}
pub use Rules.{Rule}
unfoldable pub use Rules.{
  matches, contains_any_prefix, contains_any_substring, has_any_suffix, matches_any_glob,
  default_rules,
}
pub use Extract.{Extractor}
unfoldable pub use Extract.{default_extractors, extract_signals}
pub use Index.{Ids}
unfoldable pub use Index.{
  severity_rank, append_unique_signals, append_unique_strings, merged, add_mutation,
}
pub use Engine.{Analyzer, RuleBasedEngine, Content}
unfoldable pub use Engine.{
  apply_rules, apply_mutations, apply_analyzers, classify_files, with_fallback, classify,
}
