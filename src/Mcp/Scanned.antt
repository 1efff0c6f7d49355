-- ===== src/Mcp/Scanned.antt =====
-- What the readiness of a packet that a scan returned depends on.
use merger.Prelude.{
  ◌≡◌, refl, sym, ◌∙◌, true, not, ◌&&◌, List, [], ◌∷◌, pos, is_empty, ok, err, Result, bind-ok,
  Bool-cases, inl, inr,
}
use merger.Text.{Str}
use merger.Domain.{ChangePacket, DecisionStatus, EvidenceRequirement, ReviewerRequirement}
use merger.Lanes.{is_black}
use merger.Diff
use merger.Pipeline.{decide}
use merger.Pipeline.Green.{AsksNothing, decide-AsksNothing}
use merger.Pipeline.Stages.{
  StageError, at_stage, new_packet, enrich_mutations, enrich_runtime_impact, analyse,
}
use merger.Scan.{Surroundings, ScanOptions, scan_origin, loader_of, run}
use merger.Scan.Agrees.{processor_of, scan_packet-as_ingested}
use merger.Mcp.Ready.{is_approved, evidence_blockers, review_blockers, check_readiness}
use merger.Mcp.Blockers.{ready-parts, approved-is}

at_stage-ok {ℓ κ} :
    {E : Type ℓ} {A : Type κ} (f : E → StageError) (v : Result E A) (a : A)
    → at_stage f v ≡ ok a
    → v ≡ ok a
at_stage-ok f (ok b) a h = cc
at_stage-ok f (err e) a h = cc

analyse-AsksNothing :
    (x : Surroundings) (o : ScanOptions) (packet p : ChangePacket)
    → analyse (processor_of x o [] (pos 0)) (loader_of x) packet ≡ ok p
    → p.decision.status ≡ DecisionStatus.approved
    → AsksNothing p
unfolding analyse
analyse-AsksNothing x o packet p h =
    let pr = processor_of x o [] (pos 0) in
    let (m, _, h1) = bind-ok (enrich_mutations pr (loader_of x) packet) _ h in
    let (r, _, h2) = bind-ok (enrich_runtime_impact pr (loader_of x) m) _ h1 in
    decide-AsksNothing pr.engines r p (at_stage-ok StageError.in_policy (decide pr.engines r) p h2)

run-AsksNothing :
    (x : Surroundings) (o : ScanOptions) (p : ChangePacket)
    → run x o ≡ ok p
    → p.decision.status ≡ DecisionStatus.approved
    → AsksNothing p
unfolding run
run-AsksNothing x o p h =
    let start = new_packet (scan_origin x o) (Diff.parse_unified o.diff) in
    analyse-AsksNothing x o start p (sym (scan_packet-as_ingested x o [] (pos 0) start) ∙ h)

no_evidence_blockers :
    (completed : List Str) (es : List EvidenceRequirement)
    → is_empty es ≡ true
    → is_empty (evidence_blockers completed es) ≡ true
unfolding evidence_blockers
no_evidence_blockers completed [] h = refl
no_evidence_blockers completed (e ∷ es) h = cc

no_review_blockers :
    (completed : List Str) (rs : List ReviewerRequirement)
    → is_empty rs ≡ true
    → is_empty (review_blockers completed rs) ≡ true
unfolding review_blockers
no_review_blockers completed [] h = refl
no_review_blockers completed (r ∷ rs) h = cc

-- Whatever evidence and reviews are reported as complete: a packet that a scan returned is reported
-- as ready exactly when its decision is approved, it asks for no evidence and no review, and its
-- lane is not BLACK.
pub scanned-reports_unused :
    (x : Surroundings) (o : ScanOptions) (p : ChangePacket) (evidence reviews : List Str)
    → run x o ≡ ok p
    → (check_readiness evidence reviews p).ready ≡ (
        is_approved p.decision.status
        && (is_empty p.evidence && (is_empty p.reviewers && not (is_black p.merge_lane))))
scanned-reports_unused x o p evidence reviews h =
    elim (Bool-cases (is_approved p.decision.status)) [
      | inl approved ↦
          let (e, r) = run-AsksNothing x o p h (approved-is p.decision.status approved) in
          rw
            (
              ready-parts evidence reviews p,
              approved,
              no_evidence_blockers evidence p.evidence e,
              no_review_blockers reviews p.reviewers r,
              e,
              r,
            )
            refl
      | inr other ↦ rw (ready-parts evidence reviews p, other) refl
    ]
