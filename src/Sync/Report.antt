-- ===== src/Sync/Report.antt =====
-- The drift report of apps/web/src/realtime/use-player-sync.ts against the schema of the protocol.
use youtube_rooms.Prelude.{ℕ, ◌≡◌, Bool, true, false, some, arith}
use youtube_rooms.Prelude.Text.{Text}
use youtube_rooms.Number.{is_negative}
use youtube_rooms.Protocol.Client.{ClientMessage}
use youtube_rooms.Protocol.Schema.{is_client_message}
use youtube_rooms.Timeline.{Timeline}
use youtube_rooms.Clock.{ClockEstimator}
use youtube_rooms.Sync.{Player, drift_report}

-- Whatever value the player gives for its position, not a number and the infinities included, a
-- report is only made of numbers that the protocol's schema takes, unless the position is negative.
pub drift_report-IsMessage :
    (is_url : Text → Bool) (player : Player) (tl : Timeline) (clock : ClockEstimator) (now : ℕ)
    (message : ClientMessage)
    → is_negative player.current_time ≡ false
    → drift_report player tl clock now ≡ some message
    → is_client_message is_url message ≡ true
unfolding drift_report is_client_message
drift_report-IsMessage is_url player tl clock now message n e = ground arith
