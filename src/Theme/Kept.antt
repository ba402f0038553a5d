-- ===== src/Theme/Kept.antt =====
-- What apps/web/src/components/theme-provider.tsx keeps of the viewer's own choice.
use youtube_rooms.Prelude.{◌≡◌, refl, true, Option, some, List, [], ◌∷◌, All, arith}
use youtube_rooms.Prelude.Text.{Text}
use youtube_rooms.Protocol.Server.{ThemeMode}
use youtube_rooms.Theme.{
  ThemeKey, key_text, mode_text, as_theme_key, as_theme_mode, ThemeProvider, blank, theme, mode,
  adopt, mount, set_theme, set_mode, toggle_mode, set_room_theme, enter_room, leave_room, Event,
  enters, leaves, step, run,
}

as_theme_key-key_text : (k : ThemeKey) → as_theme_key (some (key_text k)) ≡ k
unfolding as_theme_key
as_theme_key-key_text k = ground arith

as_theme_mode-mode_text : (m : ThemeMode) → as_theme_mode (some (mode_text m)) ≡ m
unfolding as_theme_mode
as_theme_mode-mode_text m = ground arith

-- What is stored reads back as the choice that is in force.
pub record Kept (p : ThemeProvider) : Type 0 where
  pub available : p.storage ≡ true
  pub same_theme : as_theme_key p.stored_theme ≡ p.preferred_theme
  pub same_mode : as_theme_mode p.stored_mode ≡ p.preferred_mode

step-Kept : (p : ThemeProvider) (e : Event) → Kept p → Kept (step p e)
unfolding step set_theme set_mode toggle_mode set_room_theme enter_room leave_room
step-Kept p e h = grind (arith, as_theme_key-key_text, as_theme_mode-mode_text)

run-Kept : (p : ThemeProvider) (es : List Event) → Kept p → Kept (run p es)
unfolding run
run-Kept p [] h = h
run-Kept p (e ∷ es) h = run-Kept (step p e) es (step-Kept p e h)

mount-Kept :
    (stored_theme stored_mode : Option Text) → Kept (mount (blank true stored_theme stored_mode))
unfolding mount adopt
mount-Kept stored_theme stored_mode = record {
  available = refl;
  same_theme = refl;
  same_mode = refl;
}

abbrev pub remount : ThemeProvider → ThemeProvider
remount p = mount (blank p.storage p.stored_theme p.stored_mode)

remount-Kept :
    (p : ThemeProvider)
    → Kept p
    → (theme (remount p) ≡ p.preferred_theme) × (mode (remount p) ≡ p.preferred_mode)
unfolding mount adopt
remount-Kept p h = ground arith

-- Where the storage works, whatever was stored before, text that is no theme included, and whatever
-- the viewer picks and rooms lay over it, the next visit shows the theme and the mode that the viewer
-- last preferred.
pub run-remount :
    (stored_theme stored_mode : Option Text) (es : List Event)
    → (theme (remount (run (mount (blank true stored_theme stored_mode)) es))
        ≡ (run (mount (blank true stored_theme stored_mode)) es).preferred_theme)
      × (mode (remount (run (mount (blank true stored_theme stored_mode)) es))
          ≡ (run (mount (blank true stored_theme stored_mode)) es).preferred_mode)
run-remount stored_theme stored_mode es =
    remount-Kept (run (mount (blank true stored_theme stored_mode)) es) (
      run-Kept (mount (blank true stored_theme stored_mode)) es
        (mount-Kept stored_theme stored_mode))

abbrev pub IsOfRoom : Event → Type 0
IsOfRoom (enters room_theme room_mode) = Unit
IsOfRoom leaves = Unit
IsOfRoom _ = ⊥

-- What a room does not touch.
abbrev pub IsSame : ThemeProvider → ThemeProvider → Type 0
IsSame p q =
    (q.preferred_theme ≡ p.preferred_theme)
    × (q.preferred_mode ≡ p.preferred_mode)
    × (q.stored_theme ≡ p.stored_theme)
    × (q.stored_mode ≡ p.stored_mode)

step-IsSame : (p : ThemeProvider) (e : Event) → IsOfRoom e → IsSame p (step p e)
unfolding step set_room_theme enter_room leave_room
step-IsSame p e r = ground arith

run-IsSame : (p : ThemeProvider) (es : List Event) → All IsOfRoom es → IsSame p (run p es)
unfolding run
run-IsSame p [] r = (refl, refl, refl, refl)
run-IsSame p (e ∷ es) r = ground (arith, step-IsSame p e r.0, run-IsSame (step p e) es r.1)

-- Whatever rooms a viewer goes through, leaving the last one shows the viewer's own theme and mode
-- again, and what is stored is what it was.
pub leave_room-run :
    (p : ThemeProvider) (es : List Event)
    → All IsOfRoom es
    → (theme (leave_room (run p es)) ≡ p.preferred_theme)
      × (mode (leave_room (run p es)) ≡ p.preferred_mode)
      × IsSame p (leave_room (run p es))
unfolding leave_room set_room_theme
leave_room-run p es r = ground (arith, run-IsSame p es r)
