-- ===== src/Conflict/Route.antt =====
-- analyzer.go: the route of an assessment.
use merger.Prelude.{Bool, any}
use merger.Text.{str_key}
use merger.Domain.{ChangePacket}
use merger.Conflict.{nothing_found, look, overlaps}

-- A path of the packet that two or more files have, when normalized.
abbrev pub overlapping : ChangePacket → Bool
overlapping p = any overlaps (look p.files nothing_found).seen
