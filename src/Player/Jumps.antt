-- ===== src/Player/Jumps.antt =====
-- Where the jumps of apps/web/src/components/room/player.tsx lead.
use youtube_rooms.Prelude.{ℕ, ◌+◌, ◌≤◌, ◌≡◌, Bool, true, false, not, some, ◌∷◌, arith}
use youtube_rooms.Units.{ms_position}
use youtube_rooms.Protocol.Client.{seek, sync_intent}
use youtube_rooms.Timeline.{Timeline}
use youtube_rooms.Player.View.{Room, Player, can_control}
use youtube_rooms.Player.Controls.{skip_ms, send, jump, seek_by}

-- The places from which a jump of `n` does not meet an end of the source.
abbrev pub IsClear : ℕ → ℕ → ℕ → Type 0
IsClear n d x = (n ≤ x) × (x + n ≤ d)

jump-bounds :
    (n d x : ℕ)
    → x ≤ d
    → (x ≤ jump true n (some d) x)
      × (jump true n (some d) x ≤ d)
      × (jump true n (some d) x ≤ x + n)
      × (jump false n (some d) x ≤ x)
      × (x ≤ jump false n (some d) x + n)
      × (IsClear n d x → jump true n (some d) (jump false n (some d) x) ≡ x)
jump-bounds n d x h = ground arith

-- A jump, of a viewer who may control playback, leads to a place within the source, moves by at most
-- ten seconds and in its own direction, and is undone by the opposite jump where no end is so near;
-- and it is asked for at the version of the timeline that the viewer saw.
pub seek_by-bounds :
    (room : Room) (p : Player) (tl : Timeline) (socket d : ℕ)
    → room.socket ≡ some socket
    → room.timeline ≡ some tl
    → tl.duration ≡ some d
    → can_control room ≡ true
    → p.position ≤ d
    → (forwards : Bool)
    → (to : ℕ) × ((seek_by forwards (ms_position skip_ms) room p).sent
        ≡ sync_intent (seek to) tl.version ∷ p.sent)
      × (to ≤ d)
      × (to ≤ p.position + ms_position skip_ms)
      × (p.position ≤ to + ms_position skip_ms)
      × (IsClear (ms_position skip_ms) d p.position
          → jump (not forwards) (ms_position skip_ms) (some d) to ≡ p.position)
unfolding seek_by send
seek_by-bounds room p tl socket d s t e c h true = (
  jump true (ms_position skip_ms) (some d) p.position,
  ground arith,
  ground arith,
  ground arith,
  ground arith,
  ground arith,
)
seek_by-bounds room p tl socket d s t e c h false = (
  jump false (ms_position skip_ms) (some d) p.position,
  ground arith,
  ground arith,
  ground arith,
  ground arith,
  ground arith,
)
