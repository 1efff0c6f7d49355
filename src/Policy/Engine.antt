-- ===== src/Policy/Engine.antt =====
-- engine.go: `Evaluate`, which validates its configuration first.
use merger.Prelude.{ℕ, Option, none, some, Result, ok, err, ◌≡◌}
use merger.Domain.{ChangePacket}
use merger.Policy.Model.{Config, Evaluation}
use merger.Policy.Validate.{PolicyError, validate}
use merger.Policy.Apply.{evaluate_rules}

abbrev pub validated : Option PolicyError → Evaluation → Result PolicyError Evaluation
validated none ev = ok ev
validated (some e) ev = err e

unfoldable pub evaluate : ℕ → Config → ChangePacket → Result PolicyError Evaluation
unfolding validate evaluate_rules
evaluate now config p = validated (validate config) (evaluate_rules now config.policies p)

-- An evaluation that is given is that of the rules.
pub evaluate-ok :
    (now : ℕ) (config : Config) (p : ChangePacket) (ev : Evaluation)
    → evaluate now config p ≡ ok ev
    → evaluate_rules now config.policies p ≡ ev
unfolding evaluate
evaluate-ok now config p ev h = given (validate config) h
  where
    given :
        (o : Option PolicyError)
        → validated o (evaluate_rules now config.policies p) ≡ ok ev
        → evaluate_rules now config.policies p ≡ ev
    given none k = cc
    given (some e) k = cc
