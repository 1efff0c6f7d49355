-- ===== src/Conflict/Score.antt =====
-- analyzer.go: the score of an assessment.
use merger.Prelude.{ℕ, ◌+◌, ◌*◌, any}
use merger.Text.{str_key}
use merger.Domain.{ChangePacket}
use merger.Conflict.{drifted, start}
use merger.Conflict.Look.{points_if, marked, sensitive_file, overlap_count}

-- The points of a packet before the cap.
abbrev pub points : ChangePacket → ℕ
points p =
    points_if (drifted (start p)) 25
    + 20 * overlap_count p
    + points_if (any sensitive_file p.files) 10
    + points_if (any marked p.files) 45
