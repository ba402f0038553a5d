-- ===== src/Player/Menus.antt =====
-- The rows of controls of apps/web/src/components/room/player.tsx: that of a desktop, and that of a
-- phone with its sheet. An entry is a control and whether it is disabled. The entries that act on the
-- browser alone, or on the shell, are left out: the copy of the address, theatre mode, picture in
-- picture and fullscreen.
use youtube_rooms.Prelude.{
  ℕ, ◌≡◌, refl, Bool, true, false, not, ◌||◌, none, some, List, [], ◌∷◌, ◌++◌, map, All, All-append,
  All-imp, Bool-cases, inl, inr, any, arith, ltb, length, if◌then◌else◌,
}
use youtube_rooms.Prelude.Text.{Text, same_text, same_text_refl}
use youtube_rooms.Player.View.{Room, Player, can_control, live}
use youtube_rooms.Player.Controls.{
  Control, play_button, back_button, forward_button, previous_button, next_button, loop_button,
  restart_item, sound_button, rate_item, quality_item, enabled, rates,
}

abbrev pub Entry : Type 0
Entry = Control × Bool

-- RateMenu and QualityMenu, where they are there.
abbrev pub rate_entry : ℕ → Entry
rate_entry quarters = (rate_item quarters, false)

abbrev pub quality_entry : Text → Entry
quality_entry option = (quality_item (some option), false)

unfoldable pub rate_menu : Room → Player → List Entry
rate_menu room p = if live room p then [] else map rate_entry rates

unfoldable pub quality_menu : Player → List Entry
quality_menu p =
    if ltb 1 (length p.qualities)
    then (quality_item none, false) ∷ map quality_entry p.qualities
    else []

-- The buttons that both rows begin with.
abbrev pub primary : Room → Player → List Entry
primary room p =
    (play_button, not (can_control room))
    ∷ (back_button, not (can_control room) || live room p)
    ∷ (forward_button, not (can_control room) || live room p)
    ∷ []

abbrev pub loop_entry : Room → Entry
loop_entry room = (loop_button, not (can_control room))

abbrev pub neighbours : Room → List Entry
neighbours room =
    (previous_button, not (can_control room)) ∷ (next_button, not (can_control room)) ∷ []

-- MoreMenu
abbrev pub more_menu : Room → List Entry
more_menu room = (restart_item, not (can_control room)) ∷ []

-- MobileMoreSheet
unfoldable pub mobile_more_sheet : Room → Player → List Entry
unfolding rate_menu quality_menu
mobile_more_sheet room p =
    neighbours room ++ ((loop_entry room ∷ rate_menu room p) ++ (quality_menu p ++ more_menu room))

-- What stands between the neighbours and the speed on a desktop.
abbrev pub extras : Room → Player → List Entry
extras room p = loop_entry room ∷ (sound_button false, false) ∷ quality_menu p

-- The whole rows.
unfoldable pub desktop_row : Room → Player → List Entry
unfolding rate_menu quality_menu
desktop_row room p =
    primary room p ++ (neighbours room ++ (extras room p ++ (rate_menu room p ++ more_menu room)))

unfoldable pub mobile_row : Room → Player → List Entry
unfolding mobile_more_sheet
mobile_row room p = primary room p ++ ((sound_button true, false) ∷ mobile_more_sheet room p)

-- A label of a menu is offered by it.
any-same_text : (menu : List Text) → All (λ (l : Text). any (same_text l) menu ≡ true) menu
any-same_text [] = tt
any-same_text (x ∷ xs) = (
  rw (same_text_refl x) refl,
  All-imp (λ (l : Text). any (same_text l) xs ≡ true)
      (λ (l : Text). any (same_text l) (x ∷ xs) ≡ true) xs (λ l h. ground (arith, h))
      (any-same_text xs),
)

-- An entry works exactly where its control does.
pub Works : Room → Player → Entry → Type 0
Works room p e = not e.1 ≡ enabled e.0 room p

module _ (room : Room) (p : Player) where
  primary-Works : All (Works room p) (primary room p)
  unfolding Works enabled
  primary-Works = ground arith

  rate_menu-Works : All (Works room p) (rate_menu room p)
  unfolding Works enabled rate_menu
  rate_menu-Works = ground arith

  loop-Works : Works room p (loop_entry room)
  unfolding Works enabled
  loop-Works = ground arith

  sound-Works : (compact : Bool) → Works room p (sound_button compact, false)
  unfolding Works enabled
  sound-Works compact = refl

  joined :
      (xs ys : List Entry)
      → All (Works room p) xs
      → All (Works room p) ys
      → All (Works room p) (xs ++ ys)
  joined xs ys h k = All-append (Works room p) xs ys h k

  neighbours-Works : All (Works room p) (neighbours room)
  unfolding Works enabled
  neighbours-Works = ground arith

  more_menu-Works : All (Works room p) (more_menu room)
  unfolding Works enabled
  more_menu-Works = ground arith

  entries-Works :
      (labels : List Text)
      → ltb 1 (length p.qualities) ≡ true
      → All (λ (l : Text). any (same_text l) p.qualities ≡ true) labels
      → All (Works room p) (map quality_entry labels)
  unfolding Works enabled
  entries-Works [] m o = tt
  entries-Works (l ∷ ls) m o = (ground (arith, m, o.0), entries-Works ls m o.1)

  first_entry : ltb 1 (length p.qualities) ≡ true → Works room p (quality_item none, false)
  unfolding Works enabled
  first_entry many = rw many refl

  quality_menu-Works : All (Works room p) (quality_menu p)
  unfolding Works enabled quality_menu
  quality_menu-Works = elim (Bool-cases (ltb 1 (length p.qualities))) [
    | inl many ↦
        rw many (first_entry many, entries-Works p.qualities many (any-same_text p.qualities))
    | inr few ↦ rw few tt
  ]

  mobile_more_sheet-Works : All (Works room p) (mobile_more_sheet room p)
  unfolding mobile_more_sheet
  mobile_more_sheet-Works =
      joined (neighbours room)
        ((loop_entry room ∷ rate_menu room p) ++ (quality_menu p ++ more_menu room))
        neighbours-Works
        (joined (loop_entry room ∷ rate_menu room p) (quality_menu p ++ more_menu room)
          (loop-Works, rate_menu-Works)
          (joined (quality_menu p) (more_menu room) quality_menu-Works more_menu-Works))

  -- Each entry that the row of a phone, with its sheet, or the row of a desktop shows is disabled exactly
  -- where the control that it stands for is not enabled.
  pub rows-Works : All (Works room p) (mobile_row room p) × All (Works room p) (desktop_row room p)
  unfolding mobile_row desktop_row
  rows-Works = (
    joined (primary room p) ((sound_button true, false) ∷ mobile_more_sheet room p) primary-Works
        (sound-Works true, mobile_more_sheet-Works),
    joined (primary room p)
        (neighbours room ++ (extras room p ++ (rate_menu room p ++ more_menu room))) primary-Works
        (joined (neighbours room) (extras room p ++ (rate_menu room p ++ more_menu room))
          neighbours-Works
          (joined (extras room p) (rate_menu room p ++ more_menu room)
            (loop-Works, (sound-Works false, quality_menu-Works))
            (joined (rate_menu room p) (more_menu room) rate_menu-Works more_menu-Works))),
  )
