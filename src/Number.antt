-- ===== src/Number.antt =====
-- A JavaScript number as the playback code meets it: an exact value on a fixed grid, or one of
-- the three values that are not finite. A player is third-party code and can report any of them.
use youtube_rooms.Prelude.{ℕ, Bool, true, false, ltb}
use youtube_rooms.Prelude.Int.{ℤ, pos, ◌-ℤ◌, abs, ltb_ℤ}

pub data Number : Type 0 where
  num : ℤ → Number
  pos_inf neg_inf nan : Number

-- Number.isFinite
abbrev pub is_finite : Number → Bool
is_finite (num a) = true
is_finite _ = false

-- a - b
abbrev pub minus : Number → Number → Number
minus (num a) (num b) = num (a -ℤ b)
minus (num a) pos_inf = neg_inf
minus (num a) neg_inf = pos_inf
minus pos_inf (num b) = pos_inf
minus pos_inf neg_inf = pos_inf
minus neg_inf (num b) = neg_inf
minus neg_inf pos_inf = neg_inf
minus _ _ = nan

-- Math.abs(a) > bound
abbrev pub magnitude_above : Number → ℕ → Bool
magnitude_above (num a) bound = ltb bound (abs a)
magnitude_above pos_inf bound = true
magnitude_above neg_inf bound = true
magnitude_above nan bound = false

-- a < 0
abbrev pub is_negative : Number → Bool
is_negative (num a) = ltb_ℤ a (pos 0)
is_negative neg_inf = true
is_negative _ = false
