-- ===== src/Forms/Settings/Patched.antt =====
-- The controls of apps/web/src/components/room/settings.tsx that send one field.
use youtube_rooms.Prelude.{ℕ, ◌≡◌, refl, Bool, true, some, ◌&&◌}
use youtube_rooms.Prelude.Int.{pos, leb_ℤ}
use youtube_rooms.Prelude.Text.{Text}
use youtube_rooms.Theme.{
  ThemeKey, key_text, default, amethyst, amber, bubblegum, caffeine, claymorphism, cosmic, graphite,
  mono, nature, ocean, sunset,
}
use youtube_rooms.Forms.Update.{RoomDetails, Stored, updated, patched, update_room, is_valid_theme}
use youtube_rooms.Forms.Settings.{
  SettingsPanel, Patch, guest_queue, guest_control, advance, skip_ratio, theme, theme_mode,
  patch_body, set_patch, change_room, seed_from, or_blank,
}

key_text-is_valid_theme : (k : ThemeKey) → is_valid_theme (key_text k) ≡ true
key_text-is_valid_theme default = refl
key_text-is_valid_theme amethyst = refl
key_text-is_valid_theme amber = refl
key_text-is_valid_theme bubblegum = refl
key_text-is_valid_theme caffeine = refl
key_text-is_valid_theme claymorphism = refl
key_text-is_valid_theme cosmic = refl
key_text-is_valid_theme graphite = refl
key_text-is_valid_theme mono = refl
key_text-is_valid_theme nature = refl
key_text-is_valid_theme ocean = refl
key_text-is_valid_theme sunset = refl

-- What a control is for: the one member of a room that it sets.
abbrev pub with_patch : Patch → RoomDetails → RoomDetails
with_patch (guest_queue next) d = record d { allow_guest_queue = next }
with_patch (guest_control next) d = record d { allow_guest_control = next }
with_patch (advance next) d = record d { auto_advance = next }
with_patch (skip_ratio n) d = record d { vote_skip_ratio = n }
with_patch (theme key) d = record d { theme = key_text key }
with_patch (theme_mode mode) d = record d { theme_mode = mode }

abbrev pub is_share : Patch → Bool
is_share (skip_ratio n) = leb_ℤ (pos 0) n && leb_ℤ n (pos 1000)
is_share _ = true

module _ {ℓ} {H : Type ℓ} (str_trim : Text → Text) (chars bytes : Text → ℕ) (hash : Text → H) where
  -- Of someone who may edit the room, the patch of each control that sends one field, a threshold between
  -- 0 and 1, is taken by the server, and changes that field of the room and no other, nor its password.
  -- The room that is announced then puts its own name and topic in place of those that were typed into
  -- the panel and not yet saved.
  pub update_room-patch :
      (room : Stored H) (patch : Patch) (p : SettingsPanel)
      → is_share patch ≡ true
      → let next = record room { details = with_patch patch room.details } in
        (update_room str_trim chars bytes hash true (patch_body patch) room ≡ updated next)
        × ((change_room (some next.details) (set_patch patch p)).name ≡ room.details.name)
        × ((change_room (some next.details) (set_patch patch p)).topic
            ≡ or_blank room.details.topic)
  unfolding update_room patched patch_body change_room seed_from
  update_room-patch room (guest_queue next) p h = (refl, refl, refl)
  update_room-patch room (guest_control next) p h = (refl, refl, refl)
  update_room-patch room (advance next) p h = (refl, refl, refl)
  update_room-patch room (skip_ratio n) p h = (rw h refl, refl, refl)
  update_room-patch room (theme key) p h = (rw (key_text-is_valid_theme key) refl, refl, refl)
  update_room-patch room (theme_mode mode) p h = (refl, refl, refl)
