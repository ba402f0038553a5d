-- ===== src/Tests/Forms.antt =====
-- The forms.
use youtube_rooms.Prelude.{ℕ, ◌≡◌, refl, true, false, none, some, List, [], ◌∷◌, All, arith, length}
use youtube_rooms.Prelude.Int.{pos}
use youtube_rooms.Prelude.Text.{Text, codes, trim, trim_start, trim_end}
use youtube_rooms.Protocol.Primitives.{private, general, music}
use youtube_rooms.Protocol.Server.{dark, light}
use youtube_rooms.Session.{SessionState, anonymous, authenticated}
use youtube_rooms.Forms.NewRoom
use youtube_rooms.Forms.NewRoom.Sent.{IsSendable, run-IsSendable}
use youtube_rooms.Forms.Update.{RoomDetails, Stored, updated, update_room}
use youtube_rooms.Forms.Settings
use youtube_rooms.Forms.Settings.{
  SettingsPanel, change_room, seed_from, details_body, patch_body, set_patch,
}
use youtube_rooms.Forms.Settings.Saved.{IsSavable, meant, on_saved-details_body}
use youtube_rooms.Forms.Settings.Patched.{update_room-patch}
use youtube_rooms.Forms.Rename
use youtube_rooms.Forms.Rename.Reopened.{run-opens}
use youtube_rooms.Forms.Directory
use youtube_rooms.Forms.Directory.Searched.{run-query}
use youtube_rooms.Tests.Fixtures.{user}

-- A visitor types, signs in, and asks for a room with a password.
abbrev asks : List (SessionState × NewRoom.Event ℕ)
asks =
    (anonymous, NewRoom.submits)
    ∷ (authenticated (user 1), NewRoom.types_name (codes " film night "))
    ∷ (authenticated (user 1), NewRoom.types_password (codes "abc"))
    ∷ (authenticated (user 1), NewRoom.submits)
    ∷ []

run-IsSendable_example : All IsSendable (NewRoom.run NewRoom.blank asks).sent
run-IsSendable_example = run-IsSendable asks (tt, (omega arith, (tt, (tt, tt))))

abbrev details : RoomDetails
details = record {
  name = codes "film night";
  topic = some (codes "noir");
  visibility = private;
  category = general;
  max_participants = pos 25000;
  allow_guest_control = false;
  allow_guest_queue = true;
  vote_skip_ratio = pos 500;
  auto_advance = true;
  theme = codes "default";
  theme_mode = dark;
}

abbrev stored : Stored Text
stored = record { details = details; password_hash = none }

abbrev hash : Text → Text
hash t = t

-- The panel with another name, no topic and a password.
abbrev edited : SettingsPanel
edited = record Settings.blank {
  room = some details;
  name = codes "film nights ";
  max_participants = pos 30000;
  password = codes "secret";
}

edited-IsSavable : IsSavable trim length length hash edited
unfolding trim trim_start trim_end
edited-IsSavable = record {
  named = refl;
  short_topic = refl;
  sized = refl;
  secret = refl;
  name_trims = refl;
  topic_trims = refl;
  password_trims = refl;
}

on_saved-details_body_example :
    update_room trim length length hash true (details_body edited) stored
    ≡ updated (meant trim length length hash edited stored)
on_saved-details_body_example =
    (on_saved-details_body trim length length hash edited stored edited-IsSavable).0

update_room-patch_example :
    (change_room
      (some (record details { theme_mode = light }))
      (set_patch (Settings.theme_mode light) edited)).name
    ≡ codes "film night"
update_room-patch_example =
    (update_room-patch trim length length hash stored (Settings.theme_mode light) edited refl).1

-- A name that is typed, and the dialog cancelled and opened again, twice.
abbrev reopenings : List (Text × Rename.Event)
reopenings =
    (codes "Ada", Rename.cancels)
    ∷ (codes "Ada", Rename.opens)
    ∷ (codes "Ida", Rename.reports false)
    ∷ []

abbrev half_edited : Rename.RenameDialog
half_edited = record {
  renaming = true;
  value = codes "Adalb";
  error = none;
  busy = false;
  asked = [];
}

run-opens_example :
    (Rename.step (codes "Ida") (Rename.run half_edited reopenings) Rename.opens).value
    ≡ codes "Adalb"
run-opens_example = (run-opens half_edited reopenings (codes "Ida") (refl, (refl, (refl, tt)))).1

-- Two changes within the wait, a filter between them.
abbrev searches : List Directory.Event
searches =
    Directory.types (codes "jaz")
    ∷ Directory.passes 200
    ∷ Directory.presses_category music
    ∷ Directory.types (codes "jazz ")
    ∷ []

run-query_example :
    (Directory.step (Directory.run Directory.blank searches) (Directory.passes 300)).query
    ≡ trim (Directory.run Directory.blank searches).draft
run-query_example = (run-query searches 300 (omega arith)).0
