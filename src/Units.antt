-- ===== src/Units.antt =====
-- The grids on which clock readings, positions and rates are exact.
--
-- A clock reading is counted in microseconds where it is read (a browser coarsens
-- performance.now() to at least that). Halving a round trip and averaging two medians divide by
-- four, so an estimated server time is counted in quarters of a microsecond. A playback rate is
-- one of eight multiples of a quarter, so a position is counted in sixteenths of a microsecond.
-- A corrected rate is the room's times 21/20 or 19/20, so an applied rate is counted in eightieths.
use youtube_rooms.Prelude.{ℕ, ◌*◌}

-- One millisecond, in microseconds.
abbrev pub ms_time : ℕ → ℕ
ms_time n = n * 1000

-- One millisecond of server time, in quarters of a microsecond.
abbrev pub ms_server : ℕ → ℕ
ms_server n = n * 4000

-- One millisecond of playback, in sixteenths of a microsecond.
abbrev pub ms_position : ℕ → ℕ
ms_position n = n * 16000

-- A rate of the ladder, given in quarters, as an applied rate in eightieths.
abbrev pub nominal : ℕ → ℕ
nominal quarters = quarters * 20
