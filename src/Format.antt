-- ===== src/Format.antt =====
-- apps/web/src/lib/utils.ts: how lengths and times are written.
--
-- A length is on the grid of positions, or a value that is not finite. Quotients are exact: a value
-- of the loop of formatRelative is a fraction, where the source rounds to a double.
pub mod Durations
pub mod Ago
pub mod Initials
use youtube_rooms.Prelude.{
  ℕ, zero, suc, ◌+◌, ◌*◌, ◌/◌, ◌%◌, ◌++◌, Bool, true, false, Option, none, some, List, [], ◌∷◌, ltb,
  if◌then◌else◌,
}
use youtube_rooms.Prelude.Int.{ℤ, pos, negsuc, pos_part, ltb_ℤ}
use youtube_rooms.Prelude.Text.{Text, codes}
use youtube_rooms.Number.{Number, num, pos_inf, neg_inf, nan}
use youtube_rooms.Units.{ms_position}

-- toString of a number, by its digits; a number has fewer digits than its successor says.
unfoldable pub digits : ℕ → ℕ → Text
digits zero n = []
digits (suc fuel) n =
    let rest = digits fuel (n / 10) in
    if ltb n 10 then (48 + n) ∷ [] else rest ++ ((48 + n % 10) ∷ [])

unfoldable pub decimal : ℕ → Text
decimal n = digits (suc n) n

-- pad
unfoldable pub pad : ℕ → Text
pad n = if ltb n 10 then 48 ∷ (48 + n) ∷ [] else decimal n

-- The text of a number of whole seconds.
unfoldable pub clock_text : ℕ → Text
clock_text total =
    let s = total % 60 in
    let m = total / 60 % 60 in
    let h = total / 3600 in
    if ltb 0 h then decimal h ++ (58 ∷ (pad m ++ (58 ∷ pad s))) else decimal m ++ (58 ∷ pad s)

abbrev pub one_second : ℕ
one_second = ms_position 1000

-- The em dash.
abbrev pub unknown : Text
unknown = 8212 ∷ []

-- formatDuration
unfoldable pub format_duration : Option Number → Text
format_duration none = unknown
format_duration (some (num (pos n))) = clock_text (n / one_second)
format_duration (some _) = unknown

-- Intl.RelativeTimeFormatUnit, as far as it is used.
pub data TimeUnit : Type 0 where
  second minute hour day week month year : TimeUnit

-- The text that is given: one of the two fixed ones, or that of Intl for a number of units, whose
-- sign says that they are past.
pub data Relative : Type 0 where
  just_now long_ago : Relative
  formatted : ℤ → TimeUnit → Relative

-- How many of a unit the next one has, as a fraction; `none` is infinity.
abbrev pub units : List (TimeUnit × Option (ℕ × ℕ))
units =
    (second, some (60, 1))
    ∷ (minute, some (60, 1))
    ∷ (hour, some (24, 1))
    ∷ (day, some (7, 1))
    ∷ (week, some (435, 100))
    ∷ (month, some (12, 1))
    ∷ (year, none)
    ∷ []

-- Math.round of a fraction that is not negative.
unfoldable pub round : ℕ → ℕ → ℕ
round a b = (2 * a + b) / (2 * b)

abbrev pub past : ℕ → ℤ
past zero = pos 0
past (suc n) = negsuc n

-- The loop, at the value a / b.
unfoldable pub in_units : ℕ → ℕ → List (TimeUnit × Option (ℕ × ℕ)) → Relative
in_units a b [] = long_ago
in_units a b ((unit, none) ∷ rest) = formatted (past (round a b)) unit
in_units a b ((unit, some (n, d)) ∷ rest) =
    let later = in_units (a * d) (b * n) rest in
    if ltb (a * d) (n * b) then formatted (past (round a b)) unit else later

-- formatRelative, of the seconds that have passed: those before 45 include all that are negative.
unfoldable pub format_relative : Number → Relative
format_relative (num (pos s)) = if ltb s 45 then just_now else in_units s 1 units
format_relative (num (negsuc n)) = just_now
format_relative neg_inf = just_now
format_relative pos_inf = long_ago
format_relative nan = long_ago
