-- ===== src/Tests/Playback.antt =====
-- The timeline and the correction loop.
use youtube_rooms.Prelude.{◌+◌, ◌<◌, ◌≡◌, refl, true, false, none, some, List, [], ◌∷◌, All, arith}
use youtube_rooms.Prelude.Int.{ℤ, pos, negsuc, abs, ◌+ℤ◌, ◌-ℤ◌, ◌*ℤ◌}
use youtube_rooms.Number.{num}
use youtube_rooms.Units.{ms_position, ms_server}
use youtube_rooms.Timeline.{position_at, decide_correction, seek, nudge}
use youtube_rooms.Timeline.Convergence.{Pursuit, drift, rounds, rounds_converge, settled}
use youtube_rooms.Clock.{new, add_sample, recompute}
use youtube_rooms.Clock.History.{Event, probed, IsTruthful, history, handle}
use youtube_rooms.Sync.{Player, Loop, follow}
use youtube_rooms.Sync.Commands.{Fits, follow-Fits}
use youtube_rooms.Sync.Accuracy.{IsNearTruth, follow-IsNearTruth}
use youtube_rooms.Tests.Fixtures.{playing}

-- Ten seconds after the anchor.
advances : position_at playing (pos (4000000 + ms_server 10000)) ≡ 160000000 + ms_position 10000
unfolding position_at ◌+ℤ◌ ◌-ℤ◌ ◌*ℤ◌
advances = refl

holds : position_at (record playing { paused = true }) (pos (ms_server 60000)) ≡ 160000000
unfolding position_at
holds = refl

idle_is_zero : position_at (record playing { source = none }) (pos (ms_server 60000)) ≡ 0
unfolding position_at
idle_is_zero = refl

never_negative : position_at playing (negsuc (ms_server 60000)) ≡ 0
unfolding position_at ◌+ℤ◌ ◌-ℤ◌ ◌*ℤ◌
never_negative = refl

-- 300 ms behind at rate 2.
scales_the_nudge :
    decide_correction (num (pos (ms_position 19700))) (ms_position 20000) 8 settled ≡ nudge 168
unfolding decide_correction ◌-ℤ◌
scales_the_nudge = refl

edge_of_the_seek_band :
    decide_correction (num (pos (ms_position 10000))) (ms_position 11500) 4 settled
    ≡ seek (ms_position 11500)
unfolding decide_correction ◌-ℤ◌
edge_of_the_seek_band = refl

-- 900 ms behind.
abbrev behind : Pursuit
behind = record { observed = pos (ms_position 9100); target = ms_position 10000 }

rounds_converge_example : abs (drift (rounds 116 4 behind)) < ms_position 50
rounds_converge_example = rounds_converge 116 4 behind (omega arith) (omega arith) (omega arith)

-- Three probes of a server whose clock is one second ahead.
abbrev probed_thrice : List Event
probed_thrice =
    probed 1000000 (num (pos 980000)) (num (pos 1995000))
    ∷ probed 1250000 (num (pos 1240000)) (num (pos 2245000))
    ∷ probed 1500000 (num (pos 1485000)) (num (pos 2490000))
    ∷ []

abbrev one_second : ℤ
one_second = pos 1000000

truthful : All (IsTruthful one_second) probed_thrice
unfolding ◌+ℤ◌
truthful = omega arith

abbrev stalled : Player
stalled = record { ready = true; live = false; current_time = num (pos 0); buffering = false }

follow-Fits_example :
    All (Fits stalled playing new 5000000) (follow stalled playing new 5000000 80).0
follow-Fits_example = follow-Fits stalled playing new 5000000 80

abbrev loop : Loop
loop = record {
  player = some stalled;
  timeline = some playing;
  clock = some new;
  applied_rate = 84;
}

follow-IsNearTruth_example :
    All
      (IsNearTruth one_second playing (history new probed_thrice) 1600000)
      (follow stalled playing (history new probed_thrice) 1600000 80).0
unfolding history handle new add_sample recompute ◌-ℤ◌
follow-IsNearTruth_example =
    follow-IsNearTruth one_second probed_thrice stalled playing 1600000 80 truthful (omega arith)
