-- ===== src/Format/Durations.antt =====
-- The lengths of apps/web/src/lib/utils.ts, read back.
use youtube_rooms.Prelude.{
  ℕ, zero, suc, ◌+◌, ◌-◌, ◌*◌, ◌/◌, ◌%◌, ◌++◌, ◌<◌, ◌≡◌, refl, ◌∙◌, ap, Option, none, some, List,
  [], ◌∷◌, ◌==◌, ltb, if◌then◌else◌, append_assoc, append-nil, subst, arith, Bool-cases, inl, inr,
}
use youtube_rooms.Prelude.Int.{pos}
use youtube_rooms.Prelude.Text.{Text}
use youtube_rooms.Number.{num}
use youtube_rooms.Format.{digits, decimal, pad, clock_text, one_second, format_duration}

-- The numbers between the colons of a text.
unfoldable pub fields : ℕ → Text → List ℕ
fields value [] = value ∷ []
fields value (c ∷ t) =
    let next = fields 0 t in
    let same = fields (value * 10 + (c - 48)) t in if c == 58 then value ∷ next else same

-- The seconds that a text of two or of three numbers stands for.
abbrev pub seconds_of : List ℕ → Option ℕ
seconds_of (m ∷ s ∷ []) = some (m * 60 + s)
seconds_of (h ∷ m ∷ s ∷ []) = some (h * 3600 + m * 60 + s)
seconds_of _ = none

unfoldable pub read_duration : Text → Option ℕ
read_duration t = seconds_of (fields 0 t)

fields_digit :
    (value d n : ℕ) (t : Text)
    → d < 10
    → n ≡ value * 10 + d
    → fields value ((48 + d) ∷ t) ≡ fields n t
unfolding fields
fields_digit value d n t h e = grind arith

fields-digits : (fuel n : ℕ) (t : Text) → n < fuel → fields 0 (digits fuel n ++ t) ≡ fields n t
unfolding digits
fields-digits zero n t h = ground arith
fields-digits (suc fuel) n t h = elim (Bool-cases (ltb n 10)) [
  | inl low ↦ rw low (fields_digit 0 n n t (ground arith) (omega arith))
  | inr high ↦
      rw (high, append_assoc)
        (fields-digits fuel (n / 10) ((48 + n % 10) ∷ t) (ground arith)
          ∙ fields_digit (n / 10) (n % 10) n t (omega arith) (omega arith))
]

fields-decimal : (n : ℕ) (t : Text) → fields 0 (decimal n ++ t) ≡ fields n t
unfolding decimal
fields-decimal n t = fields-digits (suc n) n t (omega arith)

fields-pad : (n : ℕ) (t : Text) → fields 0 (pad n ++ t) ≡ fields n t
unfolding pad
fields-pad n t = elim (Bool-cases (ltb n 10)) [
  | inl low ↦ rw low (
      fields_digit 0 0 0 ((48 + n) ∷ t) (omega arith) (omega arith)
      ∙ fields_digit 0 n n t (ground arith) (omega arith))
  | inr high ↦ rw high (fields-decimal n t)
]

fields-colon : (n : ℕ) (t : Text) → fields n (58 ∷ t) ≡ n ∷ fields 0 t
unfolding fields
fields-colon n t = refl

fields-last : (n : ℕ) → fields 0 (pad n) ≡ n ∷ []
unfolding fields
fields-last n = subst (λ t. fields 0 t ≡ n ∷ []) (append-nil (pad n)) (fields-pad n [])

-- The two texts of a number of seconds, as their numbers.
fields-clock_text :
    (total : ℕ)
    → fields 0 (clock_text total) ≡ (
        if ltb 0 (total / 3600)
        then total / 3600 ∷ total / 60 % 60 ∷ total % 60 ∷ []
        else total / 60 % 60 ∷ total % 60 ∷ [])
unfolding clock_text fields
fields-clock_text total = elim (Bool-cases (ltb 0 (total / 3600))) [
  | inl long ↦
      rw
        (
          long,
          fields-decimal (total / 3600),
          fields-colon,
          fields-pad (total / 60 % 60),
          fields-last (total % 60),
        )
        refl
  | inr short ↦
      rw (short, fields-decimal (total / 60 % 60), fields-colon, fields-last (total % 60)) refl
]

seconds_of-parts :
    (total : ℕ)
    → seconds_of (
        if ltb 0 (total / 3600)
        then total / 3600 ∷ total / 60 % 60 ∷ total % 60 ∷ []
        else total / 60 % 60 ∷ total % 60 ∷ [])
      ≡ some total
seconds_of-parts total = elim (Bool-cases (ltb 0 (total / 3600))) [
  | inl long ↦ rw long (ap some (omega arith))
  | inr short ↦ rw short (ap some (ground arith))
]

-- The text of a length, read by its colons as hours, minutes and seconds, gives back the whole seconds
-- of the length, whether it is below an hour or not: nothing is lost but the fraction of a second.
pub read_duration-format_duration :
    (n : ℕ) → read_duration (format_duration (some (num (pos n)))) ≡ some (n / one_second)
unfolding read_duration format_duration
read_duration-format_duration n =
    ap seconds_of (fields-clock_text (n / one_second)) ∙ seconds_of-parts (n / one_second)
