-- ===== src/Format/Initials/Mirrored.antt =====
-- apps/web/src/lib/initials.ts against the server's initials.
use youtube_rooms.Prelude.{
  ℕ, ◌≡◌, refl, Bool, true, false, not, Option, none, some, List, [], ◌∷◌, arith, any, filter,
  length,
}
use youtube_rooms.Prelude.Text.{Text, is_empty, is_space}
use youtube_rooms.Format.Initials.{
  starts_with, split_runs, split_each, last_of, first_alnum, of_tokens, initials_of, first_of, pick,
  of_words, server_initials,
}

abbrev map_char : Option ℕ → Option Text
map_char none = none
map_char (some c) = some (c ∷ [])

single_lem : (t : Text) (c : ℕ) → length t ≡ 1 → t ≡ first_of c t ∷ []
single_lem [] c h = ground (arith, h)
single_lem (u ∷ []) c h = refl
single_lem (u ∷ v ∷ vs) c h = ground (arith, h)

-- Both splits have the same first word, and others that differ by empty words.
split_runs-head : (t : Text) → starts_with is_space t ≡ true → (split_runs t).0 ≡ []
unfolding split_runs
split_runs-head [] h = refl
split_runs-head (c ∷ []) h = ground (arith, h)
split_runs-head (c ∷ d ∷ cs) h = ground (arith, h, split_runs-head (d ∷ cs))

split_runs-split_each :
    (check : Text → Bool)
    → check [] ≡ false
    → (t : Text)
    → ((split_runs t).0 ≡ (split_each is_space t).0)
      × (filter check (split_runs t).1 ≡ filter check (split_each is_space t).1)
unfolding split_runs split_each
split_runs-split_each check e [] = (refl, refl)
split_runs-split_each check e (c ∷ cs) =
    ground (arith, e, split_runs-split_each check e cs, split_runs-head cs)

filter-is_empty :
    (check : Text → Bool)
    → check [] ≡ false
    → (ts : List Text) → filter check (filter (λ (t : Text). not (is_empty t)) ts) ≡ filter check ts
filter-is_empty check e [] = refl
filter-is_empty check e ([] ∷ ts) = rw e (filter-is_empty check e ts)
filter-is_empty check e ((c ∷ cs) ∷ ts) = ground (arith, filter-is_empty check e ts)

-- The words that count are the same.
tokens-words :
    (check : Text → Bool)
    → check [] ≡ false
    → (name : Text)
    → filter check ((split_runs name).0 ∷ (split_runs name).1)
      ≡ filter check (
          filter
            (λ (t : Text). not (is_empty t))
            ((split_each is_space name).0 ∷ (split_each is_space name).1))
tokens-words check e name =
    let (head, tail) = split_runs-split_each check e name in
    rw (head, filter-is_empty check e ((split_each is_space name).0 ∷ (split_each is_space name).1))
      (ground (arith, tail))

module _ (is_alnum : ℕ → Bool) (to_upper : ℕ → Text) where
  first_alnum-pick :
      ((c : ℕ) → length (to_upper c) ≡ 1)
      → (t : Text) → first_alnum is_alnum to_upper t ≡ map_char (pick is_alnum to_upper t)
  unfolding first_alnum pick
  first_alnum-pick single [] = refl
  first_alnum-pick single (c ∷ cs) =
      ground (arith, single_lem (to_upper c) c (single c), first_alnum-pick single cs)

  of_tokens-of_words :
      ((c : ℕ) → length (to_upper c) ≡ 1)
      → (ts : List Text) → of_tokens is_alnum to_upper ts ≡ of_words is_alnum to_upper ts
  unfolding of_tokens of_words
  of_tokens-of_words single [] = refl
  of_tokens-of_words single (t ∷ []) = rw (first_alnum-pick single t) (ground arith)
  of_tokens-of_words single (t ∷ u ∷ us) =
      rw (first_alnum-pick single t, first_alnum-pick single (last_of u us)) (ground arith)

  -- Where the browser and the server agree on the classes and on the upper case of a character, and that
  -- is always one character, the initials are those that the server gives.
  pub initials_of-server_initials :
      ((c : ℕ) → length (to_upper c) ≡ 1)
      → (name : Text)
      → initials_of is_alnum to_upper name ≡ server_initials is_alnum to_upper is_space name
  unfolding initials_of server_initials
  initials_of-server_initials single name = rw (tokens-words (any is_alnum) refl name) (
      of_tokens-of_words single (
        filter (any is_alnum) (
          filter (λ (t : Text). not (is_empty t))
            ((split_each is_space name).0 ∷ (split_each is_space name).1))))
