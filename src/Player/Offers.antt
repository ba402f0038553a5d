-- ===== src/Player/Offers.antt =====
-- What is laid over the picture by apps/web/src/components/room/player.tsx, against its controls.
use youtube_rooms.Prelude.{◌≡◌, Bool, false, arith}
use youtube_rooms.Player.View.{Room, Player}
use youtube_rooms.Player.Controls.{skip_button, unmute_button, enabled}
use youtube_rooms.Player.Overlay.{Overlay, cannot_play, status_overlay, offers_sound}

abbrev pub has_skip : Overlay → Bool
has_skip (cannot_play message skip) = skip
has_skip _ = false

-- The button that skips a source is over the picture exactly where its control works, and so is the
-- one that brings the sound back.
status_overlay-enabled :
    (room : Room) (p : Player)
    → (has_skip (status_overlay room p) ≡ enabled skip_button room p)
      × (offers_sound room p ≡ enabled unmute_button room p)
unfolding status_overlay offers_sound enabled
status_overlay-enabled room p = ground arith
