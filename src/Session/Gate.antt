-- ===== src/Session/Gate.antt =====
-- The name that apps/web/src/components/join-gate.tsx asks the server for.
use youtube_rooms.Prelude.{◌≡◌, false, none, some, arith, if◌then◌else◌}
use youtube_rooms.Prelude.Text.{Text, trim, trim_twice}
use youtube_rooms.Protocol.Schema.{is_display_name}
use youtube_rooms.Session.{JoinGate, wrong_length, fits, submit}

fits-is_display_name : (t : Text) → fits (trim t) ≡ is_display_name t
unfolding is_display_name
fits-is_display_name t = ground arith

-- A submission of a gate that is not busy asks the server for a name exactly where the schema of the
-- protocol takes what was typed; the name itself is one that the schema takes too; and where it takes
-- neither, nothing is sent and the visitor is told of the length.
pub submit-is_display_name :
    (g : JoinGate)
    → g.busy ≡ false
    → ((submit g).1 ≡ (if is_display_name g.display_name then some (trim g.display_name) else none))
      × (is_display_name (trim g.display_name) ≡ is_display_name g.display_name)
      × (is_display_name g.display_name ≡ false → (submit g).0.refusal ≡ some wrong_length)
unfolding submit is_display_name
submit-is_display_name g b = ground (arith, trim_twice g.display_name)
