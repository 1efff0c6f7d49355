-- ===== src/Mutations/Detects.antt =====
-- engine.go: what a rule detects is in the classification.
use merger.Prelude.{
  ℕ, ◌≡◌, refl, sym, ap, ◌∙◌, Bool, true, ◌&&◌, List, [], ◌∷◌, map, some, any, ◌==◌, leb,
  if◌then◌else◌, Dict, lookup, ok, bind-ok, arith, Bool-cases, inl, inr, eq_refl, MapOrder,
  any-perm, any-map,
}
use mathlib.Core.List.{Memᴰ}
use mathlib.Core.Path.{subst}
use merger.Text.{Str, str_key}
use merger.Domain.{ChangedFile, Mutation, MutationKind, kind_key, MutationSignal}
use merger.Mutations.Rules.{Rule, matches}
use merger.Mutations.Extract.{extract_signals}
use merger.Mutations.Index.{Ids, severity_rank, add_mutation}
use merger.Mutations.Engine.{
  RuleBasedEngine, Content, of_rule, draw, apply_rules, apply_analyzers, classify_files,
  with_fallback, nothing_indexed, classify,
}
use merger.Mutations.Covers.{Covers, Indexed}
use merger.Mutations.Entries.{WellKinded, entered-enters}
use merger.Mutations.Keeps.{
  Keeps-trans, add_rule-Keeps, apply_rules-Keeps, apply_analyzers-Keeps, classify_files-Keeps,
  with_fallback-Keeps,
}

add_mutation-enters :
    (r : Rule) (path : Str) (ids : ℕ → Str) (s : Ids) (m : Mutation)
    → WellKinded s.index
    → Covers r path m
    → Indexed r path (add_mutation ids s m).index
unfolding add_mutation
add_mutation-enters r path ids s m = entered-enters r path ids s m (lookup m.kind s.index) refl

of_rule-Covers :
    (id : Str) (r : Rule) (f : ChangedFile) (signals : List MutationSignal)
    → Covers r f.path (of_rule id r f signals)
of_rule-Covers id r f signals = record {
  kind = refl;
  severity = omega arith;
  confidence = omega arith;
  listed = rw (eq_refl f.path) refl;
}

apply_rules-enters :
    (r : Rule) (ids : ℕ → Str) (rs : List Rule) (f : ChangedFile) (signals : List MutationSignal)
    (s : Ids)
    → WellKinded s.index
    → Memᴰ r rs
    → matches r f.path signals ≡ true
    → Indexed r f.path (apply_rules ids rs f signals s).index
unfolding apply_rules
apply_rules-enters r ids [] f signals s w m h = elim m [ ]
apply_rules-enters r ids (q ∷ qs) f signals s w (Memᴰ.head e) h =
    (apply_rules-Keeps r f.path ids qs f signals _).holds (
      subst
        (λ x.
          Indexed r f.path
            (if matches x f.path signals
              then add_mutation ids (draw s) (of_rule (ids s.drawn) x f signals)
              else s).index)
        e
        (rw h (
          add_mutation-enters r f.path ids (draw s) (of_rule (ids s.drawn) r f signals) w
            (of_rule-Covers (ids s.drawn) r f signals))))
apply_rules-enters r ids (q ∷ qs) f signals s w (Memᴰ.tail m) h =
    apply_rules-enters r ids qs f signals _
      ((add_rule-Keeps r f.path ids (matches q f.path signals) s (ids s.drawn)
          (of_rule (ids s.drawn) q f signals)).kinds
        w)
      m h

classify_files-enters :
    (r : Rule) (g : ChangedFile) (signals : List MutationSignal) (ids : ℕ → Str)
    (e : RuleBasedEngine) (content : Content) (fs : List ChangedFile) (s s' : Ids)
    → Memᴰ g fs
    → Memᴰ r e.rules
    → extract_signals e.extractors g ≡ ok signals
    → matches r g.path signals ≡ true
    → WellKinded s.index
    → classify_files ids e content fs s ≡ ok s'
    → Indexed r g.path s'.index
unfolding classify_files
classify_files-enters r g signals ids e content [] s s' m n x hit w h = elim m [ ]
classify_files-enters r g signals ids e content (f ∷ fs) s s' (Memᴰ.head same) n x hit w h =
    let (signals', extracted, rest) = bind-ok (extract_signals e.extractors f) _ h in
    let (mid, analyzed, more) =
      bind-ok
        (apply_analyzers ids e.analyzers f (content f.path) (apply_rules ids e.rules f signals' s))
        _ rest in
    let agree : signals ≡ signals' =
      (let k : ok signals ≡ ok signals' =
          sym x ∙ ap (extract_signals e.extractors) same ∙ extracted in
        cc) in
    let here : Indexed r f.path (apply_rules ids e.rules f signals' s).index =
      apply_rules-enters r ids e.rules f signals' s w n (rw (sym same, sym agree) hit) in
    let there =
      (Keeps-trans
          (apply_analyzers-Keeps r f.path ids e.analyzers f (content f.path) _ mid analyzed)
          (classify_files-Keeps r f.path ids e content fs mid s' more)).holds
        here in
    subst (λ y. Indexed r y s'.index) (ap (λ y. y.path) (sym same)) there
classify_files-enters r g signals ids e content (f ∷ fs) s s' (Memᴰ.tail m) n x hit w h =
    let (signals', extracted, rest) = bind-ok (extract_signals e.extractors f) _ h in
    let (mid, analyzed, more) =
      bind-ok
        (apply_analyzers ids e.analyzers f (content f.path) (apply_rules ids e.rules f signals' s))
        _ rest in
    let w' =
      (Keeps-trans (apply_rules-Keeps r g.path ids e.rules f signals' s)
          (apply_analyzers-Keeps r g.path ids e.analyzers f (content f.path) _ mid analyzed)).kinds
        w in
    classify_files-enters r g signals ids e content fs mid s' m n x hit w' more

abbrev pub covering : Rule → Str → Mutation → Bool
covering r path m =
    m.kind == r.kind
    && (leb (severity_rank r.severity) (severity_rank m.severity)
        && (leb r.confidence m.confidence && any (λ value. value == path) m.files))

Covers-covering :
    (r : Rule) (path : Str) (m : Mutation) → Covers r path m → covering r path m ≡ true
Covers-covering r path m c =
    (let k = c.kind in
      let s = c.severity in
      let f = c.confidence in
      let l = c.listed in ground (arith, eq_refl r.kind, ap (λ x. x == r.kind) k))

any-lookup :
    (g : Mutation → Bool) (k : MutationKind) (d : Dict MutationKind Mutation) (m : Mutation)
    → lookup k d ≡ some m
    → g m ≡ true
    → any (λ (x : MutationKind × Mutation). g x.1) d ≡ true
unfolding lookup
any-lookup g k [] m h t = cc
any-lookup g k ((j, v) ∷ d) m h t = elim (Bool-cases (j == k)) [
  | inl same ↦
      (let e : some v ≡ some m = rw same at h in
        let f : v ≡ m = cc in let t' : g v ≡ true = ap g f ∙ t in ground arith)
  | inr other ↦ (let r = any-lookup g k d m (rw other at h) t in ground arith)
]

nothing-WellKinded : WellKinded nothing_indexed.index
unfolding lookup
nothing-WellKinded k m e = cc

-- Whatever the ids, the analyzers and the order of the index: where a rule of the engine matches a
-- file of the request and the classification succeeds, it holds a mutation of the kind of that
-- rule, with at least its severity and its confidence, that lists the file.
pub classify-covers :
    (order : MapOrder) (ids : ℕ → Str) (e : RuleBasedEngine) (content : Content)
    (files : List ChangedFile) (ms : List Mutation) (r : Rule) (f : ChangedFile)
    (signals : List MutationSignal)
    → classify order ids e content files ≡ ok ms
    → Memᴰ f files
    → Memᴰ r e.rules
    → extract_signals e.extractors f ≡ ok signals
    → matches r f.path signals ≡ true
    → any (covering r f.path) ms ≡ true
unfolding classify
classify-covers order ids e content files ms r f signals h in_files in_rules x hit =
    let (s, classified, listed) =
      bind-ok (classify_files ids e content files nothing_indexed) _ h in
    let found =
      classify_files-enters r f signals ids e content files nothing_indexed s in_files in_rules x
        hit nothing-WellKinded classified in
    let i = (with_fallback-Keeps r f.path ids files s).holds found in
    let index = (with_fallback ids files s).index in
    let same : map (λ (x : MutationKind × Mutation). x.1)
          (order.iterate (MutationKind × Mutation) index)
        ≡ ms =
      cc in
    rw (sym same) (
      any-map (covering r f.path) (λ (x : MutationKind × Mutation). x.1)
        (order.iterate (MutationKind × Mutation) index)
      ∙ any-perm _ (order.visits_all (MutationKind × Mutation) index)
      ∙ any-lookup (covering r f.path) r.kind index i.mutation i.stored
          (Covers-covering r f.path i.mutation i.covers))
