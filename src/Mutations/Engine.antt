-- ===== src/Mutations/Engine.antt =====
-- engine.go: `Classify`.
use merger.Prelude.{
  ℕ, ◌+◌, Bool, not, ◌&&◌, List, [], ◌∷◌, map, if◌then◌else◌, Result, ok, ◌>>=◌, MapOrder, is_empty,
}
use merger.Text.{Str, lit}
use merger.Domain.{ChangedFile, Mutation, MutationKind, MutationSignal, Severity}
use merger.Mutations.Rules.{Rule, matches}
use merger.Mutations.Extract.{Extractor, extract_signals}
use merger.Mutations.Index.{Ids, add_mutation}

-- What a content loader reads for a path; an error reads as no content.
abbrev pub Content : Type 0
Content = Str → Str

pub record Analyzer : Type 0 where
  pub supports : ChangedFile → Bool
  pub analyze : ChangedFile → Str → Result Str (List Mutation)

pub record RuleBasedEngine : Type 0 where
  pub rules : List Rule
  pub extractors : List Extractor
  pub analyzers : List Analyzer

-- The mutation of a rule that matches; its id is drawn first.
abbrev pub of_rule : Str → Rule → ChangedFile → List MutationSignal → Mutation
of_rule id r f signals = record {
  id = id;
  kind = r.kind;
  severity = r.severity;
  confidence = r.confidence;
  title = r.title;
  description = r.description;
  files = f.path ∷ [];
  signals = signals;
  detector = r.name;
}

abbrev pub draw : Ids → Ids
draw s = record s { drawn = s.drawn + 1 }

unfoldable pub apply_rules : (ℕ → Str) → List Rule → ChangedFile → List MutationSignal → Ids → Ids
unfolding matches add_mutation
apply_rules ids [] f signals s = s
apply_rules ids (r ∷ rs) f signals s = apply_rules ids rs f signals (
    if matches r f.path signals
    then add_mutation ids (draw s) (of_rule (ids s.drawn) r f signals)
    else s)

unfoldable pub apply_mutations : (ℕ → Str) → List Mutation → Ids → Ids
unfolding add_mutation
apply_mutations ids [] s = s
apply_mutations ids (m ∷ ms) s = apply_mutations ids ms (add_mutation ids s m)

unfoldable pub apply_analyzers :
    (ℕ → Str) → List Analyzer → ChangedFile → Str → Ids → Result Str Ids
unfolding apply_mutations
apply_analyzers ids [] f content s = ok s
apply_analyzers ids (a ∷ rest) f content s =
    if a.supports f
    then a.analyze f content
      >>= (λ ms. apply_analyzers ids rest f content (apply_mutations ids ms s))
    else apply_analyzers ids rest f content s

-- The loop over the files.
unfoldable pub classify_files :
    (ℕ → Str) → RuleBasedEngine → Content → List ChangedFile → Ids → Result Str Ids
unfolding extract_signals apply_rules apply_analyzers
classify_files ids e content [] s = ok s
classify_files ids e content (f ∷ fs) s = extract_signals e.extractors f >>= (λ signals.
    apply_analyzers ids e.analyzers f (content f.path) (apply_rules ids e.rules f signals s)
    >>= classify_files ids e content fs)

abbrev fallback : Str → List ChangedFile → Mutation
fallback id files = record {
  id = id;
  kind = MutationKind.unknown;
  severity = Severity.low;
  confidence = 350;
  title = lit "unclassified change surface";
  description = [];
  files = map (λ f. f.path) files;
  signals = [];
  detector = lit "fallback";
}

unfoldable pub with_fallback : (ℕ → Str) → List ChangedFile → Ids → Ids
unfolding add_mutation
with_fallback ids files s =
    if is_empty s.index && not (is_empty files)
    then add_mutation ids (draw s) (fallback (ids s.drawn) files)
    else s

abbrev pub nothing_indexed : Ids
nothing_indexed = record { index = []; drawn = 0 }

unfoldable pub classify :
    MapOrder → (ℕ → Str) → RuleBasedEngine → Content → List ChangedFile → Result Str (List Mutation)
unfolding classify_files with_fallback
classify order ids e content files = classify_files ids e content files nothing_indexed >>= (λ s.
    ok (
      map (λ (x : MutationKind × Mutation). x.1)
        (order.iterate _ (with_fallback ids files s).index)))
