-- ===== src/Prelude/Text.antt =====
-- Texts as the lists of their code units, and the methods of the source's strings.
use Prim.Native.Char.{code}
use Prim.Native.Nat.{ℕ, ◌≤◌}
use Prim.Native.String.{String}
use mathlib.Core.Path.{◌≡◌, refl}
use mathlib.Core.Bool.{Bool, true, false, ◌&&◌, ◌||◌}
use mathlib.Core.List.{List, [], ◌∷◌, ◌++◌}
use native.Mathlib.Omega.{arith}
use youtube_rooms.Prelude.Tests.{leb, ◌==◌, if◌then◌else◌}
use youtube_rooms.Prelude.Lists.{length}

abbrev pub Text : Type 0
Text = List ℕ

abbrev pub codes : String → Text
codes String.[] = []
codes (String.◌∷◌ c s) = code c ∷ codes s

-- `===`
abbrev pub same_text : Text → Text → Bool
same_text [] [] = true
same_text [] (y ∷ ys) = false
same_text (x ∷ xs) [] = false
same_text (x ∷ xs) (y ∷ ys) = (x == y) && same_text xs ys

-- `!text`
abbrev pub is_empty : Text → Bool
is_empty [] = true
is_empty (x ∷ xs) = false

-- join
abbrev pub join : Text → List Text → Text
join separator [] = []
join separator (t ∷ []) = t
join separator (t ∷ u ∷ ts) = t ++ separator ++ join separator (u ∷ ts)

pub same_text-eq : (s t : Text) → same_text s t ≡ true → s ≡ t
same_text-eq [] [] h = refl
same_text-eq [] (y ∷ ys) h = cc
same_text-eq (x ∷ xs) [] h = cc
same_text-eq (x ∷ xs) (y ∷ ys) h = ground (arith, same_text-eq xs ys)

pub same_text_refl : (s : Text) → same_text s s ≡ true
same_text_refl [] = refl
same_text_refl (x ∷ xs) = ground (arith, same_text_refl xs)

-- The code units that trim takes away: white space and the ends of lines.
abbrev pub is_space : ℕ → Bool
is_space c =
    (leb 9 c && leb c 13)
    || c == 32
    || c == 160
    || c == 5760
    || (leb 8192 c && leb c 8202)
    || c == 8232
    || c == 8233
    || c == 8239
    || c == 8287
    || c == 12288
    || c == 65279

unfoldable pub trim_start : Text → Text
trim_start [] = []
trim_start (x ∷ xs) = let rest = trim_start xs in if is_space x then rest else x ∷ xs

unfoldable pub trim_end : Text → Text
trim_end [] = []
trim_end (x ∷ xs) = let rest = trim_end xs in if is_empty rest && is_space x then [] else x ∷ rest

-- trim
unfoldable pub trim : Text → Text
trim t = trim_end (trim_start t)

trim_end_twice : (t : Text) → trim_end (trim_end t) ≡ trim_end t
unfolding trim_end
trim_end_twice [] = refl
trim_end_twice (x ∷ xs) = ground (arith, trim_end_twice xs)

trim_start-trim : (t : Text) → trim_start (trim t) ≡ trim t
unfolding trim trim_start trim_end
trim_start-trim [] = refl
trim_start-trim (x ∷ xs) = ground (arith, trim_start-trim xs)

pub trim_twice : (t : Text) → trim (trim t) ≡ trim t
unfolding trim
trim_twice t = rw (trim_start-trim t) (trim_end_twice (trim_start t))

length-trim_end : (t : Text) → length (trim_end t) ≤ length t
unfolding trim_end
length-trim_end [] = omega arith
length-trim_end (x ∷ xs) = ground (arith, length-trim_end xs)

length-trim_start : (t : Text) → length (trim_start t) ≤ length t
unfolding trim_start
length-trim_start [] = omega arith
length-trim_start (x ∷ xs) = ground (arith, length-trim_start xs)

pub length-trim : (t : Text) → length (trim t) ≤ length t
unfolding trim
length-trim t = omega (arith, length-trim_end (trim_start t), length-trim_start t)

pub length-is_empty : (t : Text) → is_empty t ≡ false → 1 ≤ length t
length-is_empty [] e = cc
length-is_empty (x ∷ xs) e = omega arith
