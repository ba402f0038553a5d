-- ===== src/Clock.antt =====
-- apps/web/src/realtime/clock.ts: the estimate of the server's clock, and the probe schedule.
--
-- Local readings are in microseconds, an offset of a sample in halves and the estimated offset in
-- quarters of a microsecond, so that no division of the source rounds.
pub mod Filter
pub mod Accuracy
pub mod History
pub mod Probing
use youtube_rooms.Prelude.{
  ℕ, suc, ◌+◌, ◌-◌, ◌*◌, ◌/◌, ◌%◌, min, Bool, true, false, ◌||◌, Option, none, some, List, [], ◌∷◌,
  ◌++◌, map, ltb, leb, ◌==◌, if◌then◌else◌, length, get_elem?, drop, filter, take,
}
use youtube_rooms.Prelude.Int.{ℤ, pos, pos_part, abs, ◌+ℤ◌, ◌-ℤ◌, ◌*ℤ◌, ltb_ℤ, leb_ℤ}
use youtube_rooms.Prelude.Sort.{sort, by_key}
use youtube_rooms.Number.{Number, num, minus}
use youtube_rooms.Units.{ms_time}

-- CLOCK; RTT_ACCEPT_MULTIPLIER is 3/2.
abbrev pub burst_count : ℕ
burst_count = 8

abbrev pub burst_interval_ms : ℕ
burst_interval_ms = 250

abbrev pub steady_interval_ms : ℕ
steady_interval_ms = 10000

abbrev pub window : ℕ
window = 32

abbrev pub min_confident_samples : ℕ
min_confident_samples = 3

-- The longest round trip that is taken for data.
abbrev pub max_rtt_ms : ℕ
max_rtt_ms = 10000

-- ClockSample
pub record ClockSample : Type 0 where
  pub rtt : ℕ
  pub offset : ℤ
  pub at : ℕ

-- The private fields of ClockEstimator.
pub record ClockEstimator : Type 0 where
  pub samples : List ClockSample
  pub offset : ℤ
  pub rtt : ℕ
  pub survivor_count : ℕ

unfoldable pub new : ClockEstimator
new = record { samples = []; offset = pos 0; rtt = 0; survivor_count = 0 }

abbrev pub or_zero : Option ℤ → ℤ
or_zero none = pos 0
or_zero (some a) = a

-- median, of offsets in halves; the result is in quarters.
unfoldable pub median : List ℤ → ℤ
median sorted =
    let mid = length sorted / 2 in
    if length sorted == 0
    then pos 0
    else if length sorted % 2 == 1
    then or_zero (get_elem? sorted mid) *ℤ 2
    else or_zero (get_elem? sorted (mid - 1)) +ℤ or_zero (get_elem? sorted mid)

abbrev pub rtt_or_zero : Option ClockSample → ℕ
rtt_or_zero none = 0
rtt_or_zero (some s) = s.rtt

abbrev pub sort_by_rtt : List ClockSample → List ClockSample
sort_by_rtt = sort (by_key (λ s. s.rtt))

-- The 20th percentile of the round trips.
unfoldable pub baseline : List ClockSample → ℕ
baseline sorted = rtt_or_zero (get_elem? sorted (min (length sorted / 5) (length sorted - 1)))

abbrev pub accepted : ℕ → ClockSample → Bool
accepted base s = leb (2 * s.rtt) (3 * base)

unfoldable pub survivors : List ClockSample → List ClockSample
survivors sorted =
    let kept = filter (accepted (baseline sorted)) sorted in
    if ltb 0 (length kept) then kept else take 1 sorted

-- #recompute
unfoldable pub recompute : ClockEstimator → ClockEstimator
recompute c =
    if length c.samples == 0
    then c
    else let kept = survivors (sort_by_rtt c.samples) in
      record c {
        offset = median (sort leb_ℤ (map (λ s. s.offset) kept));
        rtt = rtt_or_zero (get_elem? kept 0);
        survivor_count = length kept;
      }

-- push, then shift where the window is exceeded.
abbrev pub push_sample : List ClockSample → ClockSample → List ClockSample
push_sample samples s =
    let pushed = samples ++ s ∷ [] in if ltb window (length pushed) then drop 1 pushed else pushed

fold_in : ClockEstimator → ℕ → ℕ → Number → ClockEstimator
fold_in c now rtt (num server_time) = recompute (record c {
  samples =
      push_sample c.samples
        (record { rtt = rtt; offset = server_time *ℤ 2 +ℤ pos rtt -ℤ pos (2 * now); at = now });
})
fold_in c now rtt _ = c

-- addSample, at the local instant `now`.
unfoldable pub add_sample : ClockEstimator → ℕ → Number → Number → ClockEstimator
unfolding fold_in
add_sample c now client_sent server_time = elim (minus (num (pos now)) client_sent) [
  | num rtt ↦
      if ltb_ℤ rtt (pos 0) || ltb (ms_time max_rtt_ms) (abs rtt)
      then c
      else fold_in c now (pos_part rtt) server_time
  | _ ↦ c
]

-- seed
unfoldable pub seed : ClockEstimator → ℕ → ℤ → ClockEstimator
seed c now server_time =
    if ltb 0 (length c.samples) then c else record c { offset = (server_time -ℤ pos now) *ℤ 4 }

-- serverNow, in quarters of a microsecond.
unfoldable pub server_now : ClockEstimator → ℕ → ℤ
server_now c now = pos (4 * now) +ℤ c.offset

-- ClockStatus
pub record ClockStatus : Type 0 where
  pub offset : ℤ
  pub rtt : ℕ
  pub samples : ℕ
  pub confident : Bool

-- status
unfoldable pub status : ClockEstimator → ClockStatus
status c = record {
  offset = c.offset;
  rtt = c.rtt;
  samples = c.survivor_count;
  confident = leb min_confident_samples c.survivor_count;
}

-- reset; the offset is kept.
unfoldable pub reset : ClockEstimator → ClockEstimator
reset c = record c { samples = []; survivor_count = 0; rtt = 0 }
