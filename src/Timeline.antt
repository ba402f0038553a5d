-- ===== src/Timeline.antt =====
-- packages/protocol/src/timeline.ts: the authoritative playback record, the position that is
-- derived from it, and the decision how to correct a player.
pub mod Position
pub mod Bands
pub mod Convergence
use youtube_rooms.Prelude.{
  ℕ, ◌*◌, ◌≤◌, List, Bool, true, false, Option, none, some, ltb, leb, not, if◌then◌else◌,
}
use youtube_rooms.Prelude.Int.{ℤ, pos, pos_part, abs, ◌+ℤ◌, ◌-ℤ◌, ◌*ℤ◌, ltb_ℤ}
use youtube_rooms.Protocol.Primitives.{MediaSource}
use youtube_rooms.Number.{Number, num, minus}
use youtube_rooms.Units.{ms_position}

-- timeline; the rate is counted in quarters, `anchor_at` on the grid of server time.
pub record Timeline : Type 0 where
  pub source : Option MediaSource
  pub anchor_pos : ℕ
  pub anchor_at : ℤ
  pub rate : ℕ
  pub paused : Bool
  pub version : ℕ
  pub queue_item_id : Option ℕ
  pub loop : Bool
  pub duration : Option ℕ
  pub awaiting_start : Bool

-- PLAYBACK_RATES, in quarters.
abbrev pub IsPlaybackRate : ℕ → Type 0
IsPlaybackRate r = (1 ≤ r) × (r ≤ 8)

-- positionAt
unfoldable pub position_at : Timeline → ℤ → ℕ
position_at tl server_now = elim tl.source [
  | none ↦ 0
  | some source ↦
      if tl.paused
      then tl.anchor_pos
      else pos_part (pos tl.anchor_pos +ℤ (server_now -ℤ tl.anchor_at) *ℤ tl.rate)
]

-- SYNC
abbrev pub dead_band_ms : ℕ
dead_band_ms = 50

abbrev pub hard_seek_ms : ℕ
hard_seek_ms = 1500

abbrev pub check_interval_ms : ℕ
check_interval_ms = 1000

abbrev pub report_interval_ms : ℕ
report_interval_ms = 10000

-- Correction
pub data Correction : Type 0 where
  no_action : Correction
  nudge : ℕ → Correction
  seek : ℕ → Correction

-- The options of decideCorrection.
pub record Options : Type 0 where
  pub buffering : Bool
  pub confident : Bool
  pub paused : Bool

-- The bands, for a drift that is finite. NUDGE_FACTOR is a twentieth: 20 ± 1 of 20.
unfoldable pub correct_drift : ℤ → ℕ → ℕ → Bool → Correction
correct_drift drift target rate confident =
    if ltb (abs drift) (ms_position dead_band_ms)
    then no_action
    else if leb (ms_position hard_seek_ms) (abs drift)
    then seek target
    else if not confident
    then no_action
    else nudge (if ltb_ℤ (pos 0) drift then rate * 19 else rate * 21)

-- decideCorrection
unfoldable pub decide_correction : Number → ℕ → ℕ → Options → Correction
unfolding correct_drift
decide_correction observed target rate opts =
    if opts.paused
    then no_action
    else if opts.buffering
    then no_action
    else elim (minus observed (num (pos target))) [
      | num drift ↦ correct_drift drift target rate opts.confident
      | _ ↦ no_action
    ]
