-- ===== src/Pipeline/Finalize.antt =====
-- stages.go: the order of the effects.
use merger.Prelude.{
  ◌≡◌, Bool, true, false, List, [], ◌∷◌, ◌||◌, ◌&&◌, Option, none, some, is_empty, if◌then◌else◌,
  arith,
}
use merger.Text.{Str}
use merger.Domain.{ChangePacket}
use merger.Pipeline.{Effect, perform, finalize}

abbrev is_check : Effect → Bool
is_check Effect.publish_check = true
is_check _ = false

abbrev is_save : Effect → Bool
is_save Effect.save_packet = true
is_save _ = false

-- In a list of effects, a check comes only after a save.
abbrev pub saved_first : List Effect → Bool
saved_first [] = true
saved_first (e ∷ es) = if is_save e then true else if is_check e then false else saved_first es

abbrev pub any_check : List Effect → Bool
any_check [] = false
any_check (e ∷ es) = is_check e || any_check es

abbrev pub succeeds : Option Str → Bool
succeeds none = true
succeeds (some why) = false

-- With a store, the packet is saved before its check is published, however the effects end; and the
-- check is published exactly when the effects before it succeed: that of the violations where there
-- are any, that of the lane, and the save.
pub finalize-saved_first :
    (run : Effect → Option Str) (p : ChangePacket)
    → (saved_first (finalize true run p).0 ≡ true)
      × (any_check (finalize true run p).0 ≡ (
          (is_empty p.decision.violations || succeeds (run Effect.publish_violations))
          && (succeeds (run Effect.publish_lane) && succeeds (run Effect.save_packet))))
unfolding finalize perform
finalize-saved_first run p = (ground arith, ground arith)
