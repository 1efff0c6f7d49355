-- ===== src/Tests/RiskRuns.antt =====
-- Runs of the risk engine.
use merger.Prelude.{◌≡◌, insertion_order, reverse_order}
use merger.Risk.{evaluate, default_weights, clamp_score}
use merger.Risk.Account.{evaluate-accounts, total, raw_score, unclamped}
use merger.Risk.Score.{evaluate-IsRated, IsRated}
use merger.Tests.Fixtures.{auth_packet}

evaluate-accounts_example :
    let (summary, risks) = evaluate reverse_order default_weights auth_packet in
    (total risks ≡ raw_score default_weights auth_packet)
    × (summary.score ≡ clamp_score (unclamped auth_packet (raw_score default_weights auth_packet)))
evaluate-accounts_example = evaluate-accounts reverse_order default_weights auth_packet

evaluate-IsRated_example :
    IsRated
      (evaluate insertion_order default_weights auth_packet).0.score
      (evaluate insertion_order default_weights auth_packet).0.severity
evaluate-IsRated_example = evaluate-IsRated insertion_order default_weights auth_packet
