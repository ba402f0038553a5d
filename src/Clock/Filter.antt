-- ===== src/Clock/Filter.antt =====
-- Which samples survive the filter of ClockEstimator.#recompute in
-- apps/web/src/realtime/clock.ts.
use youtube_rooms.Prelude.{
  ℕ, zero, Bool, map, subst, sym, ap, length-filter-le, suc, ◌*◌, ◌≤◌, ◌<◌, ◌≡◌, List, [], ◌∷◌,
  length, get_elem?, filter, All, arith,
}
use youtube_rooms.Prelude.Sort.{
  IsSortedBy, AtLeast, sort, sort-IsSortedBy, All-unsort, length-sort, by_key,
}
use youtube_rooms.Prelude.Int.{leb_ℤ}
use youtube_rooms.Clock.{
  ClockSample, ClockEstimator, rtt_or_zero, sort_by_rtt, baseline, accepted, survivors, recompute,
  median,
}

abbrev pub rtt_of : ClockSample → ℕ
rtt_of s = s.rtt

-- The round trip of a sample is within half as much again of `base`.
abbrev pub Accepted : ℕ → ClockSample → Type 0
Accepted base s = 2 * s.rtt ≤ 3 * base

filter-Accepted :
    (base : ℕ) (xs : List ClockSample) → All (Accepted base) (filter (accepted base) xs)
filter-Accepted base [] = tt
filter-Accepted base (x ∷ xs) = ground (arith, filter-Accepted base xs)

AtLeast-get_elem? :
    (k : ℕ) (xs : List ClockSample) (i : ℕ)
    → All (AtLeast rtt_of k) xs
    → i < length xs
    → k ≤ rtt_or_zero (get_elem? xs i)
AtLeast-get_elem? k [] i h lt = absurd (omega arith)
AtLeast-get_elem? k (x ∷ xs) zero h lt = h.0
AtLeast-get_elem? k (x ∷ xs) (suc i) h lt = AtLeast-get_elem? k xs i h.1 (omega arith)

head-le-baseline :
    (x : ClockSample) (xs : List ClockSample)
    → IsSortedBy rtt_of (x ∷ xs)
    → x.rtt ≤ baseline (x ∷ xs)
unfolding baseline
head-le-baseline x xs h = AtLeast-get_elem? x.rtt (x ∷ xs) _ (omega arith, h.0) (omega arith)

-- The first sample in the order of the round trips is always accepted.
survivors-cons :
    (x : ClockSample) (xs : List ClockSample)
    → IsSortedBy rtt_of (x ∷ xs)
    → survivors (x ∷ xs) ≡ x ∷ filter (accepted (baseline (x ∷ xs))) xs
unfolding survivors
survivors-cons x xs h = ground (arith, head-le-baseline x xs)

-- What the filter keeps, whatever the window holds: samples within 1.5 times the 20th percentile.
pub survivors-Accepted :
    (xs : List ClockSample) → IsSortedBy rtt_of xs → All (Accepted (baseline xs)) (survivors xs)
unfolding survivors
survivors-Accepted [] h = tt
survivors-Accepted (x ∷ xs) h =
    let b = baseline (x ∷ xs) in
    rw (survivors-cons x xs h) (omega (arith, head-le-baseline x xs h), filter-Accepted b xs)

-- The 20th percentile of the samples of a window.
abbrev pub baseline_of : ClockEstimator → ℕ
baseline_of c = baseline (sort_by_rtt c.samples)

lead_rtt : List ClockSample → ℕ
lead_rtt ys = rtt_or_zero (get_elem? (survivors ys) 0)

lead_rtt-minimal :
    (ys : List ClockSample) → IsSortedBy rtt_of ys → All (AtLeast rtt_of (lead_rtt ys)) ys
unfolding lead_rtt survivors
lead_rtt-minimal [] h = tt
lead_rtt-minimal (x ∷ xs) h =
    subst (λ k. All (AtLeast rtt_of k) (x ∷ xs)) (sym lead) (omega arith, h.0)
  where
    lead : lead_rtt (x ∷ xs) ≡ x.rtt
    lead = ap (λ zs. rtt_or_zero (get_elem? zs 0)) (survivors-cons x xs h)

pub survivors-length :
    (ys : List ClockSample)
    → IsSortedBy rtt_of ys
    → 0 < length ys
    → (1 ≤ length (survivors ys)) × (length (survivors ys) ≤ length ys)
survivors-length [] h lt = absurd (omega arith)
survivors-length (x ∷ xs) h lt =
    rw (survivors-cons x xs h)
      (omega arith, omega (arith, length-filter-le (accepted (baseline (x ∷ xs))) xs))

-- The recomputation of a window that is not empty.
abbrev pub recomputed : ClockEstimator → ClockEstimator
recomputed c =
    let kept = survivors (sort_by_rtt c.samples) in
    record c {
      offset = median (sort leb_ℤ (map (λ s. s.offset) kept));
      rtt = rtt_or_zero (get_elem? kept 0);
      survivor_count = length kept;
    }

pub recompute_nonempty : (c : ClockEstimator) → 0 < length c.samples → recompute c ≡ recomputed c
unfolding recompute
recompute_nonempty c h = ground arith

-- After a recomputation over a window that is not empty, the reported round trip is at most that of
-- each sample, at least one sample survives, and no more survive than there are.
pub recompute-rtt :
    (c : ClockEstimator)
    → 0 < length c.samples
    → All (AtLeast rtt_of (recompute c).rtt) c.samples
      × (1 ≤ (recompute c).survivor_count)
      × ((recompute c).survivor_count ≤ length c.samples)
unfolding lead_rtt
recompute-rtt c h = rw (recompute_nonempty c h) (
  All-unsort by (AtLeast rtt_of (lead_rtt sorted)) c.samples (lead_rtt-minimal sorted order),
  omega (arith, kept_lengths),
  omega (arith, kept_lengths),
)
  where
    by : ClockSample → ClockSample → Bool
    by = by_key rtt_of

    sorted : List ClockSample
    sorted = sort_by_rtt c.samples

    order : IsSortedBy rtt_of sorted
    order = sort-IsSortedBy rtt_of c.samples

    same_length : length sorted ≡ length c.samples
    same_length = length-sort by c.samples

    kept_lengths : (1 ≤ length (survivors sorted)) × (length (survivors sorted) ≤ length c.samples)
    kept_lengths = rw (← same_length) (survivors-length sorted order (rw same_length h))
