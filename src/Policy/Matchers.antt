-- ===== src/Policy/Matchers.antt =====
-- matchers.go
use merger.Prelude.{Bool, true, false, not, ◌&&◌, List, pos, ◌==◌, any, is_empty, if◌then◌else◌}
use merger.Prelude.Int.{ltb_ℤ}
use merger.Text.{Str, str_key, to_lower, contains, equal_fold}
use merger.Domain.{MutationKind, kind_key, Criticality, criticality_key, ChangePacket}
use merger.Policy.Model.{RuleConfig}

unfoldable pub packet_has_any_mutation : ChangePacket → List MutationKind → Bool
packet_has_any_mutation p kinds = any (λ m. any (λ kind. m.kind == kind) kinds) p.mutations

unfoldable pub packet_touches_any_path : ChangePacket → List Str → Bool
packet_touches_any_path p patterns =
    any (λ f. any (λ pattern. contains (to_lower f.path) (to_lower pattern)) patterns) p.files

unfoldable pub contains_criticality : List Criticality → Criticality → Bool
contains_criticality values candidate = any (λ value. value == candidate) values

unfoldable pub packet_touches_owners : ChangePacket → List Str → Bool
packet_touches_owners p teams =
    any (λ owner. any (λ team. equal_fold owner.team team) teams) p.ownership

unfoldable pub matches_rule : RuleConfig → ChangePacket → Bool
matches_rule rule p =
    let when = rule.when in
    if not (is_empty when.mutations) && not (packet_has_any_mutation p when.mutations)
    then false
    else if not (is_empty when.paths) && not (packet_touches_any_path p when.paths)
    then false
    else if not (is_empty when.criticalities)
        && not (contains_criticality when.criticalities p.runtime.criticality)
    then false
    else if ltb_ℤ (pos 0) when.risk_score_gte && ltb_ℤ p.risk_summary.score when.risk_score_gte
    then false
    else if not (is_empty when.ownership_teams)
        && not (packet_touches_owners p when.ownership_teams)
    then false
    else true
