-- ===== src/Engine/Media/Dash.antt =====
-- apps/web/src/realtime/player/media-engine.ts: the renditions of a stream that dash.js plays.
use youtube_rooms.Prelude.{
  ℕ, zero, suc, sym, subst, ◌+◌, ◌/◌, ◌≡◌, Bool, true, false, not, Option, none, some, List, [],
  ◌∷◌, map, ltb, if◌then◌else◌, get_elem?, find_index, refl, ap, arith, Bool-cases, inl, inr,
  is_some,
}
use mathlib.Core.Option.{some_inj}
use youtube_rooms.Engine.Media.Levels.{Label, lines, kbps, same_label}

-- A representation; the rate is in thousandths of a kilobit, a height of 0 is a missing one.
pub record Track : Type 0 where
  pub height : ℕ
  pub bitrate_in_kbit : ℕ

-- label
unfoldable pub label : Track → Label
label r = if ltb 0 r.height then lines r.height else kbps ((r.bitrate_in_kbit + 500) / 1000)

-- labels
unfoldable pub labels : List Track → List Label
labels tracks = map label tracks

-- get, of the representation that dash.js says is current.
unfoldable pub get : Option Track → Option Label
get none = none
get (some current) = some (label current)

-- What set asks dash.js for, in order.
pub data DashCommand : Type 0 where
  switch_automatically : Bool → DashCommand
  set_representation : ℕ → DashCommand

abbrev pub is_label : Option Label → Track → Bool
is_label none r = false
is_label (some quality) r = same_label (label r) quality

abbrev pub set_found : Option ℕ → List DashCommand
set_found none = []
set_found (some index) = set_representation index ∷ []

-- set
unfoldable pub set : Option Label → List Track → List DashCommand
set quality tracks =
    switch_automatically (not (is_some quality)) ∷ set_found (find_index (is_label quality) tracks)

same_label_refl : (l : Label) → same_label l l ≡ true
same_label_refl l = ground arith

same_label-eq : (l m : Label) → same_label l m ≡ true → l ≡ m
same_label-eq (lines a) m h = ground arith
same_label-eq (kbps a) m h = ground arith
same_label-eq Label.auto m h = ground arith

abbrev pub label_at : Option Track → Option Label
label_at none = none
label_at (some r) = some (label r)

-- The first track with a label that some track has.
find-label :
    (quality : Label) (tracks : List Track) (i : ℕ)
    → label_at (get_elem? tracks i) ≡ some quality
    → (j : ℕ) × (find_index (is_label (some quality)) tracks ≡ some j)
      × (label_at (get_elem? tracks j) ≡ some quality)
find-label quality [] i h = cc
find-label quality (t ∷ ts) zero h =
    let same =
      subst (λ l. same_label l quality ≡ true) (sym (some_inj.0 h)) (same_label_refl quality) in
    (0, rw same refl, h)
find-label quality (t ∷ ts) (suc i) h = elim (Bool-cases (same_label (label t) quality)) [
  | inl same ↦ (0, rw same refl, ap some (same_label-eq (label t) quality same))
  | inr other ↦
      let (j, found, bears) = find-label quality ts i h in (suc j, rw (other, found) refl, bears)
]

find-none : (tracks : List Track) → find_index (is_label none) tracks ≡ none
find-none [] = refl
find-none (t ∷ ts) = rw (find-none ts) refl

-- Asking for a label of the menu turns the adaptive choice off and picks a representation that bears
-- the label; asking for none turns it on again and picks nothing.
pub set-label :
    (quality : Label) (tracks : List Track) (i : ℕ)
    → label_at (get_elem? tracks i) ≡ some quality
    → ((j : ℕ) × (set (some quality) tracks
          ≡ switch_automatically false ∷ set_representation j ∷ [])
        × (label_at (get_elem? tracks j) ≡ some quality))
      × (set none tracks ≡ switch_automatically true ∷ [])
unfolding set
set-label quality tracks i h =
    let (j, found, bears) = find-label quality tracks i h in
    ((j, rw found refl, bears), rw (find-none tracks) refl)
