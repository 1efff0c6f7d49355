-- ===== src/Policy/Step.antt =====
-- The loop over the rules, one rule at a time.
use merger.Prelude.{◌≡◌, refl, true, false, List, ◌∷◌, [], ◌++◌, if◌then◌else◌}
use merger.Domain.{ChangePacket}
use merger.Policy.{RuleConfig, Evaluation, matches_rule, apply_rule, apply_matching}

pub apply_matching-append :
    (p : ChangePacket) (xs ys : List RuleConfig) (ev : Evaluation)
    → apply_matching p (xs ++ ys) ev ≡ apply_matching p ys (apply_matching p xs ev)
unfolding apply_matching
apply_matching-append p [] ys ev = refl
apply_matching-append p (x ∷ xs) ys ev =
    apply_matching-append p xs ys (if matches_rule x p then apply_rule ev x else ev)

pub apply_matching-hit :
    (p : ChangePacket) (x : RuleConfig) (xs : List RuleConfig) (ev : Evaluation)
    → matches_rule x p ≡ true
    → apply_matching p (x ∷ xs) ev ≡ apply_matching p xs (apply_rule ev x)
unfolding apply_matching
apply_matching-hit p x xs ev h = rw h

pub apply_matching-miss :
    (p : ChangePacket) (x : RuleConfig) (xs : List RuleConfig) (ev : Evaluation)
    → matches_rule x p ≡ false
    → apply_matching p (x ∷ xs) ev ≡ apply_matching p xs ev
unfolding apply_matching
apply_matching-miss p x xs ev h = rw h
