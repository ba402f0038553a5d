-- ===== src/Sync.antt =====
-- apps/web/src/realtime/use-player-sync.ts: the loop that keeps a player on the room's timeline.
--
-- A tick reads the player, the timeline and the clock, and gives the player a list of commands. The
-- two intervals and the effect on a new version only decide when a tick or a report is made.
pub mod Commands
pub mod Report
pub mod Accuracy
use youtube_rooms.Prelude.{
  ℕ, ◌+◌, Bool, true, false, not, ◌||◌, ◌&&◌, Option, none, some, List, [], ◌∷◌, ◌++◌, ◌==◌,
  if◌then◌else◌, is_some,
}
use youtube_rooms.Prelude.Int.{ℤ, pos}
use youtube_rooms.Number.{Number, num, is_finite, minus, magnitude_above}
use youtube_rooms.Units.{ms_position, nominal}
use youtube_rooms.Protocol.Client.{ClientMessage, sync_report}
use youtube_rooms.Timeline.{
  Timeline, Correction, no_action, nudge, seek, position_at, decide_correction, dead_band_ms,
}
use youtube_rooms.Clock.{ClockEstimator, server_now, status}

-- What the loop reads of a PlayerEngine. `live` is false for a player that has no such method.
pub record Player : Type 0 where
  pub ready : Bool
  pub live : Bool
  pub current_time : Number
  pub buffering : Bool

-- What it calls.
pub data Command : Type 0 where
  play pause : Command
  seeks : ℕ → Command
  set_rate : ℕ → Command

-- The refs that the hook holds: the clock of the socket, and the rate last pushed.
pub record Loop : Type 0 where
  pub player : Option Player
  pub timeline : Option Timeline
  pub clock : Option ClockEstimator
  pub applied_rate : ℕ

-- A rate is pushed where it differs from the one last pushed: rates lie further apart than the
-- tolerance of 1e-6.
abbrev pub push_rate : ℕ → ℕ → List Command
push_rate applied rate = if applied == rate then [] else set_rate rate ∷ []

abbrev pub hold : Number → ℕ → List Command
hold observed target =
    if magnitude_above (minus observed (num (pos target))) (ms_position dead_band_ms)
    then seeks target ∷ []
    else []

-- The switch on the correction.
unfoldable pub correct : Correction → ℕ → ℕ → List Command × ℕ
correct (seek position) rate applied =
    (seeks position ∷ push_rate applied (nominal rate), nominal rate)
correct (nudge to) rate applied = (push_rate applied to, to)
correct no_action rate applied = (push_rate applied (nominal rate), nominal rate)

-- A tick for a source that is loaded.
unfoldable pub follow : Player → Timeline → ClockEstimator → ℕ → ℕ → List Command × ℕ
unfolding correct
follow player tl clock now applied =
    if tl.awaiting_start
    then (pause ∷ hold player.current_time 0, applied)
    else if player.live
    then ((if tl.paused then pause else play) ∷ [], applied)
    else let target = position_at tl (server_now clock now) in
      if tl.paused
      then (pause ∷ hold player.current_time target, applied)
      else let correction = decide_correction player.current_time target tl.rate (record {
        buffering = player.buffering;
        confident = (status clock).confident;
        paused = tl.paused;
      }) in
        let (commands, rate) = correct correction tl.rate applied in (play ∷ commands, rate)

-- The first test of a tick, and of a report.
abbrev pub is_loaded : Player → Timeline → Bool
is_loaded player tl = player.ready && is_some tl.source

-- tickRef.current
unfoldable pub tick : Loop → ℕ → List Command × ℕ
tick l now = elim l.player [
  | none ↦ ([], l.applied_rate)
  | some player ↦ (elim l.timeline [
    | none ↦ ([], l.applied_rate)
    | some tl ↦ (elim l.clock [
      | none ↦ ([], l.applied_rate)
      | some clock ↦
          if is_loaded player tl
          then follow player tl clock now l.applied_rate
          else ([], l.applied_rate)
    ])
  ])
]

-- The report of the drift, for a player that is at a finite position.
unfoldable pub drift_report : Player → Timeline → ClockEstimator → ℕ → Option ClientMessage
drift_report player tl clock now =
    if not (is_loaded player tl) || tl.paused
    then none
    else let target = position_at tl (server_now clock now) in
      if not (is_finite player.current_time)
      then none
      else some (
          sync_report (minus player.current_time (num (pos target))) player.current_time
            player.buffering)
