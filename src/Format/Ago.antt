-- ===== src/Format/Ago.antt =====
-- The loop over the units in apps/web/src/lib/utils.ts.
use youtube_rooms.Prelude.{
  ℕ, suc, ◌≡◌, Bool, true, false, Option, none, some, arith, leb, ltb, ◌&&◌, ◌+◌, ◌*◌,
}
use youtube_rooms.Prelude.Int.{ℤ, pos, negsuc, ltb_ℤ}
use youtube_rooms.Number.{num}
use youtube_rooms.Format.{
  Relative, just_now, formatted, TimeUnit, second, minute, hour, day, week, month, year, long_ago,
  round, in_units, format_relative,
}

-- The most of a unit that is written: what rounds up to the next unit, or stays below it.
abbrev pub most : TimeUnit → Option ℕ
most second = some 59
most minute = some 60
most hour = some 24
most day = some 7
most week = some 4
most month = some 12
most year = none

abbrev pub is_at_most : ℕ → Option ℕ → Bool
is_at_most n none = true
is_at_most n (some m) = leb n m

-- The length of a unit in hundredths of a second: a month is 4.35 weeks, a year is twelve months.
abbrev pub hundredths : TimeUnit → ℕ
hundredths second = 100
hundredths minute = 6000
hundredths hour = 360000
hundredths day = 8640000
hundredths week = 60480000
hundredths month = 263088000
hundredths year = 3157056000

-- So many of a unit are the time rounded to the unit: they are off by at most half a unit, and of two
-- that are equally near it is the larger one.
abbrev pub is_nearest : ℕ → ℕ → TimeUnit → Bool
is_nearest s n unit =
    leb (2 * n * hundredths unit) (200 * s + hundredths unit)
    && ltb (200 * s + hundredths unit) (2 * suc n * hundredths unit)

-- A text that says how long ago a time is, of the seconds that have passed.
abbrev pub is_ago : ℤ → Relative → Bool
is_ago s just_now = ltb_ℤ s (pos 45)
is_ago s (formatted (pos n) unit) = false
is_ago (pos s) (formatted (negsuc n) unit) =
    ltb 44 s && is_at_most (suc n) (most unit) && is_nearest s (suc n) unit
is_ago (negsuc s) (formatted (negsuc n) unit) = false
is_ago s long_ago = false

-- For every time that is a number of seconds, below 45 it is written as just now, and any other one
-- as so many units ago. The number is the time in that unit, a month of 4.35 weeks and a year of twelve
-- months, rounded to a whole one; it is at least one, and no more than the next unit has. So the loop
-- over the units ends within the list, and the words behind it are never given.
pub format_relative-is_ago : (s : ℤ) → is_ago s (format_relative (num s)) ≡ true
unfolding format_relative in_units round
format_relative-is_ago (pos s) = ground arith
format_relative-is_ago (negsuc n) = ground arith
