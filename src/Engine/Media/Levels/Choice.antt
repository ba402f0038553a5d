-- ===== src/Engine/Media/Levels/Choice.antt =====
-- What choosing a rendition of apps/web/src/realtime/player/media-engine.ts gives.
use youtube_rooms.Prelude.{
  ℕ, zero, suc, ◌<◌, ◌≡◌, ◌∙◌, sym, ap, subst, refl, true, false, Option, none, some, List, [], ◌∷◌,
  map, get_elem?, find_index, arith, Bool-cases, inl, inr, ==_iff,
}
use mathlib.Core.Option.{some_inj}
use youtube_rooms.Engine.Media.Levels.{
  Label, lines, kbps, same_label, Level, describe_level, Hls, labels, quality, set_quality,
  describe_elem, current_of,
}

same_label-eq : (a b : Label) → same_label a b ≡ true → a ≡ b
same_label-eq (lines m) (lines n) h = ap lines ((==_iff m n).0 h)
same_label-eq (kbps m) (kbps n) h = ap kbps ((==_iff m n).0 h)
same_label-eq Label.auto Label.auto h = refl
same_label-eq _ _ h = cc

same_label_refl : (a : Label) → same_label a a ≡ true
same_label_refl (lines m) = (==_iff m m).1 refl
same_label_refl (kbps m) = (==_iff m m).1 refl
same_label_refl Label.auto = refl

abbrev pub next : Option ℕ → Option ℕ
next none = none
next (some i) = some (suc i)

abbrev pub position : Label → List Level → Option ℕ
position label levels = find_index (λ level. same_label (describe_level level) label) levels

position-here :
    (label : Label) (l : Level) (ls : List Level)
    → same_label (describe_level l) label ≡ true
    → position label (l ∷ ls) ≡ some 0
position-here label l ls h = ground (arith, h)

position-later :
    (label : Label) (l : Level) (ls : List Level)
    → same_label (describe_level l) label ≡ false
    → position label (l ∷ ls) ≡ next (position label ls)
position-later label l ls h = ground (arith, h)

current_of-next :
    (o : Option ℕ) (l : Level) (ls : List Level) → current_of (next o) (l ∷ ls) ≡ current_of o ls
unfolding current_of describe_elem
current_of-next none l ls = refl
current_of-next (some i) l ls = refl

current_of-here :
    (l : Level) (ls : List Level) → current_of (some 0) (l ∷ ls) ≡ some (describe_level l)
unfolding current_of describe_elem
current_of-here l ls = refl

found_here :
    (label : Label) (l : Level) (ls : List Level)
    → same_label (describe_level l) label ≡ true
    → current_of (position label (l ∷ ls)) (l ∷ ls) ≡ some label
found_here label l ls h =
    ap (λ o. current_of o (l ∷ ls)) (position-here label l ls h)
    ∙ current_of-here l ls
    ∙ ap some (same_label-eq _ _ h)

found :
    (label : Label) (levels : List Level) (i : ℕ)
    → get_elem? (map describe_level levels) i ≡ some label
    → current_of (position label levels) levels ≡ some label
found label [] i e = cc
found label (l ∷ ls) zero e = found_here label l ls (e_label e)
  where
    e_label : some (describe_level l) ≡ some label → same_label (describe_level l) label ≡ true
    e_label g = subst (λ d. same_label d label ≡ true) (sym (some_inj.0 g)) (same_label_refl label)
found label (l ∷ ls) (suc i) e = elim (Bool-cases (same_label (describe_level l) label)) [
  | inl h ↦ found_here label l ls h
  | inr h ↦
      ap (λ o. current_of o (l ∷ ls)) (position-later label l ls h)
      ∙ current_of-next (position label ls) l ls
      ∙ found label ls i e
]

-- A rendition of the menu that is chosen is the one in use afterwards, by its label.
pub quality-set_quality :
    (hls : Hls) (i : ℕ) (label : Label)
    → get_elem? (labels hls) i ≡ some label
    → quality (set_quality (some label) hls) ≡ some label
unfolding labels quality set_quality
quality-set_quality hls i label e = found label hls.levels i e

-- Of two renditions of one height, which differ in bitrate alone, choosing the second in the menu
-- gives the first.
pub set_quality-height :
    (height fast slow : ℕ) (rest : List Level) (current : Option ℕ)
    → 0 < height
    → (get_elem?
          (labels (record {
            levels =
                record { height = height; bitrate = fast }
                ∷ record { height = height; bitrate = slow }
                ∷ rest;
            current_level = current;
          }))
          1
        ≡ some (lines height))
      × ((set_quality (some (lines height)) (record {
        levels =
            record { height = height; bitrate = fast }
            ∷ record { height = height; bitrate = slow }
            ∷ rest;
        current_level = current;
      })).current_level
          ≡ some 0)
unfolding labels set_quality describe_level
set_quality-height height fast slow rest current h = ground arith
