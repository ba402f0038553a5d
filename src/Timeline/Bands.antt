-- ===== src/Timeline/Bands.antt =====
-- The three bands of decideCorrection in packages/protocol/src/timeline.ts.
use youtube_rooms.Prelude.{ℕ, ◌*◌, ◌≤◌, ◌<◌, ◌≡◌, true, false, ◌↔◌, ◌⊎◌, arith}
use youtube_rooms.Prelude.Int.{ℤ, pos, pos_part, neg_part, abs, ◌-ℤ◌}
use youtube_rooms.Number.{num}
use youtube_rooms.Units.{ms_position}
use youtube_rooms.Timeline.{nudge, seek, Options, dead_band_ms, hard_seek_ms, decide_correction}

-- Neither paused nor refilling its buffer.
abbrev pub IsActive : Options → Type 0
IsActive opts = (opts.paused ≡ false) × (opts.buffering ≡ false)

-- A player that has to be moved is exactly one that is active and at least 1500 ms off, and it is
-- moved to the target, whether or not the clock is trusted.
pub decide_correction-seek :
    (observed : ℤ) (target rate to : ℕ) (opts : Options)
    → (decide_correction (num observed) target rate opts ≡ seek to)
      ↔ (IsActive opts × (ms_position hard_seek_ms ≤ abs (observed -ℤ pos target)) × (to ≡ target))
unfolding decide_correction
decide_correction-seek observed target rate to opts = (λ h. ground arith, λ h. ground arith)

-- A rate is nudged exactly where the player is active, the clock is trusted, and the drift lies
-- between 50 ms and 1500 ms: to 19/20 of the room's rate where the player is ahead, and to 21/20 of
-- it where the player is behind.
pub decide_correction-nudge :
    (observed : ℤ) (target rate to : ℕ) (opts : Options)
    → (decide_correction (num observed) target rate opts ≡ nudge to) ↔ (
        IsActive opts
        × (opts.confident ≡ true)
        × (ms_position dead_band_ms ≤ abs (observed -ℤ pos target))
        × (abs (observed -ℤ pos target) < ms_position hard_seek_ms)
        × (((0 < pos_part (observed -ℤ pos target)) × (to ≡ rate * 19))
            ⊎ ((0 < neg_part (observed -ℤ pos target)) × (to ≡ rate * 21))))
unfolding decide_correction
decide_correction-nudge observed target rate to opts = (λ h. ground arith, λ h. ground arith)
