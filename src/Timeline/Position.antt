-- ===== src/Timeline/Position.antt =====
-- The derived position of packages/protocol/src/timeline.ts (positionAt).
use youtube_rooms.Prelude.{ℕ, suc, ◌+◌, ◌-◌, ◌*◌, ◌≤◌, ◌≡◌, ap, arith}
use youtube_rooms.Prelude.Int.{
  ℤ, pos, negsuc, pos_part, neg_part, ◌+ℤ◌, ◌-ℤ◌, ◌*ℤ◌, -ℤ_parts, eq_of_parts,
}
use youtube_rooms.Timeline.{Timeline, position_at}

-- One instant is `gap` later than another.
abbrev pub After : ℤ → ℤ → ℕ → Type 0
After later earlier gap =
    pos_part later + neg_part earlier ≡ pos_part earlier + neg_part later + gap

-- Where a playing record stands once `elapsed` has passed since its anchor.
playing : ℕ → ℤ → ℕ → ℕ
playing anchor elapsed rate = pos_part (pos anchor +ℤ elapsed *ℤ rate)

playing_forward : (a k r : ℕ) → playing a (pos k) r ≡ a + k * r
unfolding playing ◌+ℤ◌ ◌*ℤ◌
playing_forward a k r = ground arith

playing_back : (a k r : ℕ) → playing a (negsuc k) r ≡ a - suc k * r
unfolding playing ◌+ℤ◌ ◌*ℤ◌
playing_back a k r = grind arith

elapsed-After : (t u : ℤ) (gap : ℕ) → After t u gap → t -ℤ u ≡ pos gap
elapsed-After t u gap h = omega (arith, -ℤ_parts t u, eq_of_parts)

-- A later reading of a playing record is later by the gap times the rate at most.
playing_gap :
    (a r gap : ℕ) (e f : ℤ)
    → After f e gap
    → (playing a e r ≤ playing a f r) × (playing a f r ≤ playing a e r + gap * r)
playing_gap a r gap (pos k) (pos m) h =
    omega (arith, playing_forward a k r, playing_forward a m r, ap (λ (t : ℕ). t * r) h)
playing_gap a r gap (pos k) (negsuc m) h = absurd (omega arith)
playing_gap a r gap (negsuc k) (pos m) h =
    omega (arith, playing_back a k r, playing_forward a m r, ap (λ (t : ℕ). t * r) h)
playing_gap a r gap (negsuc k) (negsuc m) h =
    omega (arith, playing_back a k r, playing_back a m r, ap (λ (t : ℕ). t * r) h)

gap_of_elapsed : (t u a : ℤ) (gap : ℕ) → After u t gap → After (u -ℤ a) (t -ℤ a) gap
gap_of_elapsed t u a gap h = omega (arith, -ℤ_parts t a, -ℤ_parts u a)

-- The position at a later instant is not earlier, and it has moved on by the time between the two
-- multiplied by the rate at most, whether the room is idle, paused or playing.
pub position_at_later :
    (tl : Timeline) (t u : ℤ) (gap : ℕ)
    → After u t gap
    → (position_at tl t ≤ position_at tl u) × (position_at tl u ≤ position_at tl t + gap * tl.rate)
unfolding position_at playing
position_at_later tl t u gap h = ground (
  arith,
  playing_gap tl.anchor_pos tl.rate gap (t -ℤ tl.anchor_at) (u -ℤ tl.anchor_at),
  gap_of_elapsed t u tl.anchor_at gap,
)

-- The record anchored anew at an instant.
abbrev pub anchored_at : Timeline → ℤ → Timeline
anchored_at tl t = record tl { anchor_pos = position_at tl t; anchor_at = t }

playing_regroup :
    (a r before gap : ℕ) → playing (a + before * r) (pos gap) r ≡ playing a (pos (before + gap)) r
playing_regroup a r before gap =
    omega (arith, playing_forward (a + before * r) gap r, playing_forward a (before + gap) r)

-- A record anchored anew at an instant after its anchor gives the same position at every later
-- instant: a late join, a delayed packet and a reconnect all see what an old member sees.
pub position_at-anchored_at :
    (tl : Timeline) (t u : ℤ) (before gap : ℕ)
    → After t tl.anchor_at before
    → After u t gap
    → position_at (anchored_at tl t) u ≡ position_at tl u
unfolding position_at playing
position_at-anchored_at tl t u before gap h k = ground (
  arith,
  elapsed-After t tl.anchor_at before,
  elapsed-After u t gap,
  elapsed-After u tl.anchor_at (before + gap),
  playing_forward tl.anchor_pos before tl.rate,
  playing_regroup tl.anchor_pos tl.rate before gap,
)
