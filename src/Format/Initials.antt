-- ===== src/Format/Initials.antt =====
-- apps/web/src/lib/initials.ts: the initials of a name, and apps/server/src/util.rs, which they mirror.
--
-- A text is the list of its code points here, since the source's expressions match by code point. The
-- classes of Unicode and the upper case of a character are parameters.
pub mod Mirrored
use youtube_rooms.Prelude.{
  ℕ, ◌≤◌, ◌≡◌, refl, Bool, true, false, not, Option, none, some, List, [], ◌∷◌, ◌++◌, arith, any,
  filter, length, if◌then◌else◌,
}
use youtube_rooms.Prelude.Text.{Text, codes, is_empty, is_space}

abbrev pub question : Text
question = codes "?"

-- The first word and the others.
abbrev pub Words : Type 0
Words = Text × List Text

abbrev pub starts_with : (ℕ → Bool) → Text → Bool
starts_with check [] = false
starts_with check (c ∷ cs) = check c

-- split, at each run of white space.
unfoldable pub split_runs : Text → Words
split_runs [] = ([], [])
split_runs (c ∷ cs) =
    let rest = split_runs cs in
    if is_space c
    then (if starts_with is_space cs then rest else ([], rest.0 ∷ rest.1))
    else (c ∷ rest.0, rest.1)

-- Rust's split, at each white space.
unfoldable pub split_each : (ℕ → Bool) → Text → Words
split_each is_whitespace [] = ([], [])
split_each is_whitespace (c ∷ cs) =
    let rest = split_each is_whitespace cs in
    if is_whitespace c then ([], rest.0 ∷ rest.1) else (c ∷ rest.0, rest.1)

abbrev pub or_empty : Option Text → Text
or_empty none = []
or_empty (some t) = t

abbrev pub or_question : Text → Text
or_question t = if is_empty t then question else t

abbrev pub last_of : Text → List Text → Text
last_of t [] = t
last_of t (u ∷ us) = last_of u us

abbrev pub first_of : ℕ → Text → ℕ
first_of c [] = c
first_of c (u ∷ us) = u

abbrev pub push : Option ℕ → Text
push none = []
push (some c) = c ∷ []

abbrev pub or_mark_char : Option ℕ → Text
or_mark_char none = question
or_mark_char (some c) = c ∷ []

abbrev pub or_mark : Option Text → Text
or_mark none = question
or_mark (some t) = t

module _ (is_alnum : ℕ → Bool) (to_upper : ℕ → Text) where
  -- firstAlnum
  unfoldable pub first_alnum : Text → Option Text
  first_alnum [] = none
  first_alnum (c ∷ cs) = let rest = first_alnum cs in if is_alnum c then some (to_upper c) else rest

  unfoldable pub of_tokens : List Text → Text
  unfolding first_alnum
  of_tokens [] = question
  of_tokens (t ∷ []) = or_mark (first_alnum t)
  of_tokens (t ∷ u ∷ us) =
      or_question (or_empty (first_alnum t) ++ or_empty (first_alnum (last_of u us)))

  -- initialsOf
  unfoldable pub initials_of : Text → Text
  unfolding of_tokens
  initials_of name =
      let words = split_runs name in of_tokens (filter (any is_alnum) (words.0 ∷ words.1))

-- The server's initials: of the upper case of a character it takes the first character, if there is one.
module _ (is_alphanumeric : ℕ → Bool) (to_uppercase : ℕ → Text) where
  unfoldable pub pick : Text → Option ℕ
  pick [] = none
  pick (c ∷ cs) =
      let rest = pick cs in if is_alphanumeric c then some (first_of c (to_uppercase c)) else rest

  unfoldable pub of_words : List Text → Text
  unfolding pick
  of_words [] = question
  of_words (t ∷ []) = or_mark_char (pick t)
  of_words (t ∷ u ∷ us) = or_question (push (pick t) ++ push (pick (last_of u us)))

  unfoldable pub server_initials : (ℕ → Bool) → Text → Text
  unfolding of_words
  server_initials is_whitespace name =
      let words = split_each is_whitespace name in
      of_words
        (filter (any is_alphanumeric) (filter (λ (t : Text). not (is_empty t)) (words.0 ∷ words.1)))
