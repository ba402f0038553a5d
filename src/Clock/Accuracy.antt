-- ===== src/Clock/Accuracy.antt =====
-- How far the estimate of apps/web/src/realtime/clock.ts is from the true offset of the clocks.
use youtube_rooms.Prelude.{
  ℕ, zero, suc, ◌+◌, ◌-◌, ◌*◌, ◌/◌, ◌≤◌, ◌<◌, ◌≡◌, List, [], ◌∷◌, map, length, get_elem?, All,
  length-map, arith, All-filter, All-take,
}
use youtube_rooms.Prelude.Int.{
  ℤ, pos_part, neg_part, ◌+ℤ◌, ◌*ℤ◌, leb_ℤ, +ℤ_parts, *ℤ_pos_part, *ℤ_neg_part, eq_of_parts,
}
use youtube_rooms.Prelude.Sort.{All-sort, length-sort, sort-IsSortedBy, by_key, sort, IsSortedBy}
use youtube_rooms.Clock.{
  ClockSample, ClockEstimator, median, or_zero, sort_by_rtt, baseline, survivors, accepted,
}
use youtube_rooms.Clock.Filter.{
  Accepted, survivors-Accepted, baseline_of, recomputed, rtt_of, survivors-length,
}

-- `a` is within `r` of `centre`.
abbrev pub Within : ℤ → ℕ → ℤ → Type 0
Within centre r a =
    (pos_part a + neg_part centre ≤ pos_part centre + neg_part a + r)
    × (pos_part centre + neg_part a ≤ pos_part a + neg_part centre + r)

-- A sample is sound for the true offset (server less local, in microseconds) when it is off by half
-- its round trip at most.
abbrev pub IsSound : ℤ → ClockSample → Type 0
IsSound truth s = Within (truth *ℤ 2) s.rtt s.offset

in_range :
    (centre : ℤ) (r i : ℕ) (xs : List ℤ)
    → All (Within centre r) xs
    → i < length xs
    → Within centre r (or_zero (get_elem? xs i))
in_range centre r i [] h lt = absurd (omega arith)
in_range centre r zero (x ∷ xs) h lt = h.0
in_range centre r (suc i) (x ∷ xs) h lt = in_range centre r i xs h.1 (omega arith)

double-Within : (centre a : ℤ) (r : ℕ) → Within centre r a → Within (centre *ℤ 2) (2 * r) (a *ℤ 2)
double-Within centre a r h =
    omega (arith, *ℤ_pos_part centre 2, *ℤ_neg_part centre 2, *ℤ_pos_part a 2, *ℤ_neg_part a 2)

sum-Within :
    (centre a b : ℤ) (r : ℕ)
    → Within centre r a
    → Within centre r b
    → Within (centre *ℤ 2) (2 * r) (a +ℤ b)
sum-Within centre a b r h k =
    omega (arith, *ℤ_pos_part centre 2, *ℤ_neg_part centre 2, +ℤ_parts a b)

-- The median, in quarters, of offsets in halves.
median-Within :
    (centre : ℤ) (r : ℕ) (xs : List ℤ)
    → All (Within centre r) xs
    → 0 < length xs
    → Within (centre *ℤ 2) (2 * r) (median xs)
unfolding median
median-Within centre r xs h lt =
    let mid = length xs / 2 in
    let upper = in_range centre r mid xs h (omega arith) in
    let lower = in_range centre r (mid - 1) xs h (omega arith) in
    ground (
      arith,
      double-Within centre (or_zero (get_elem? xs mid)) r upper,
      sum-Within centre (or_zero (get_elem? xs (mid - 1))) (or_zero (get_elem? xs mid)) r lower
          upper,
    )

offsets-Within :
    (truth : ℤ) (base : ℕ) (xs : List ClockSample)
    → All (IsSound truth) xs
    → All (Accepted base) xs
    → All (Within (truth *ℤ 2) (3 * base / 2)) (map (λ s. s.offset) xs)
offsets-Within truth base [] h k = tt
offsets-Within truth base (x ∷ xs) h k =
    ((omega (arith, h.0, k.0), omega (arith, h.0, k.0)), offsets-Within truth base xs h.1 k.1)

All-survivors : (P : ClockSample → Type 0) (xs : List ClockSample) → All P xs → All P (survivors xs)
unfolding survivors
All-survivors P xs h = ground (arith, All-filter P (accepted (baseline xs)) xs h, All-take P 1 xs h)

-- The estimated offset, in quarters of a microsecond, is within three quarters of the 20th
-- percentile of the window's round trips of the true one.
abbrev pub IsAccurate : ℤ → ClockEstimator → Type 0
IsAccurate truth c = Within (truth *ℤ 4) (3 * baseline_of c) c.offset

doubled_twice : (a : ℤ) → a *ℤ 2 *ℤ 2 ≡ a *ℤ 4
doubled_twice a = omega (
  arith,
  eq_of_parts,
  *ℤ_pos_part (a *ℤ 2) 2,
  *ℤ_neg_part (a *ℤ 2) 2,
  *ℤ_pos_part a 2,
  *ℤ_neg_part a 2,
  *ℤ_pos_part a 4,
  *ℤ_neg_part a 4,
)

Within-mono : (centre a : ℤ) {r q : ℕ} → r ≤ q → Within centre r a → Within centre q a
Within-mono centre a le h = omega arith

pub recomputed-IsAccurate :
    (truth : ℤ) (c : ClockEstimator)
    → 0 < length c.samples
    → All (IsSound truth) c.samples
    → IsAccurate truth (recomputed c)
recomputed-IsAccurate truth c lt h = Within-mono (truth *ℤ 4) _ (omega arith) (
    rw (doubled_twice truth) at
      (median-Within (truth *ℤ 2) (3 * base / 2) offsets all_within some_left))
  where
    sorted : List ClockSample
    sorted = sort_by_rtt c.samples

    base : ℕ
    base = baseline sorted

    kept : List ClockSample
    kept = survivors sorted

    offsets : List ℤ
    offsets = sort leb_ℤ (map (λ s. s.offset) kept)

    order : IsSortedBy rtt_of sorted
    order = sort-IsSortedBy rtt_of c.samples

    all_within : All (Within (truth *ℤ 2) (3 * base / 2)) offsets
    all_within = All-sort leb_ℤ (Within (truth *ℤ 2) (3 * base / 2)) (map (λ s. s.offset) kept) (
        offsets-Within truth base kept
          (All-survivors (IsSound truth) sorted
            (All-sort (by_key rtt_of) (IsSound truth) c.samples h))
          (survivors-Accepted sorted order))

    some_left : 0 < length offsets
    some_left = omega (
      arith,
      length-sort leb_ℤ (map (λ s. s.offset) kept),
      length-map (λ (s : ClockSample). s.offset) kept,
      length-sort (by_key rtt_of) c.samples,
      survivors-length sorted order (omega (arith, length-sort (by_key rtt_of) c.samples)),
    )
