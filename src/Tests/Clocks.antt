-- ===== src/Tests/Clocks.antt =====
-- The estimate of the server's clock, and the probes.
use youtube_rooms.Prelude.{ℕ, ◌≡◌, refl, false, List, [], ◌∷◌, arith}
use youtube_rooms.Prelude.Int.{pos, ◌+ℤ◌, ◌-ℤ◌, ◌*ℤ◌}
use youtube_rooms.Prelude.Sort.{sort, insert}
use youtube_rooms.Number.{num}
use youtube_rooms.Clock.{
  ClockEstimator, ClockSample, new, add_sample, recompute, survivors, baseline, median, status,
}
use youtube_rooms.Clock.History.{Event, probed, seeded, Inv, history, handle, history-new-Inv}

-- Round trips of 20, 10 and 15 ms; the first is over 1.5 times the best and is dropped.
abbrev probes : List Event
probes =
    probed 1000000 (num (pos 980000)) (num (pos 1995000))
    ∷ probed 1250000 (num (pos 1240000)) (num (pos 2245000))
    ∷ probed 1500000 (num (pos 1485000)) (num (pos 2490000))
    ∷ []

estimate : ((history new probes).rtt ≡ 10000) × ((history new probes).survivor_count ≡ 2)
unfolding history handle new add_sample recompute survivors baseline median sort insert ◌+ℤ◌ ◌-ℤ◌
    ◌*ℤ◌
estimate = (refl, refl)

status_of_two : (status (history new probes)).confident ≡ false
unfolding status history handle new add_sample recompute survivors baseline sort insert ◌-ℤ◌
status_of_two = refl

history-new-Inv_example : Inv (pos 1000000) (history new (seeded 900000 (pos 1900000) ∷ probes))
unfolding ◌+ℤ◌
history-new-Inv_example =
    history-new-Inv (pos 1000000) (seeded 900000 (pos 1900000) ∷ probes) (omega arith)

abbrev sample : ℕ → ClockSample
sample rtt = record { rtt = rtt; offset = pos 2000000; at = 1000000 }

abbrev sampled : ClockEstimator
sampled = record {
  samples = sample 20000 ∷ sample 10000 ∷ [];
  offset = pos 0;
  rtt = 0;
  survivor_count = 0;
}
