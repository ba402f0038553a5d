-- ===== src/Forms/Update.antt =====
-- apps/server/src/rooms/routes.rs and apps/server/src/db/rooms.rs: what the server makes of the patch
-- that the settings panel sends, and the room that it tells everyone of afterwards.
--
-- The room is there, and who asks may edit it or not. Rust's trim, the counts of characters and of
-- bytes, and the hash of a password are parameters. The texts of a visibility, a category and a mode
-- are the values that the client has, which the server knows. The database counts characters the way
-- Rust does, and takes each text but a topic that is too long.
use youtube_rooms.Prelude.{
  ℕ, ◌%◌, Bool, true, false, not, ◌&&◌, ◌||◌, Option, none, some, ◌==◌, ltb, any, if◌then◌else◌,
}
use youtube_rooms.Prelude.Int.{ℤ, pos, negsuc, abs, leb_ℤ}
use youtube_rooms.Prelude.Text.{Text, codes, is_empty, same_text}
use youtube_rooms.Protocol.Primitives.{RoomVisibility, RoomCategory}
use youtube_rooms.Protocol.Rest.{Field, absent, cleared, given, UpdateRoomRequest}
use youtube_rooms.Protocol.Server.{ThemeMode}
use youtube_rooms.Theme.{ThemeKey, key_text, theme_keys}

-- What the settings panel reads of a room; numbers are in thousandths.
pub record RoomDetails : Type 0 where
  pub name : Text
  pub topic : Option Text
  pub visibility : RoomVisibility
  pub category : RoomCategory
  pub max_participants : ℤ
  pub allow_guest_control : Bool
  pub allow_guest_queue : Bool
  pub vote_skip_ratio : ℤ
  pub auto_advance : Bool
  pub theme : Text
  pub theme_mode : ThemeMode

-- The row of a room.
pub record Stored {ℓ} (H : Type ℓ) : Type ℓ where
  pub details : RoomDetails
  pub password_hash : Option H

-- How the request ends: a body that is not of the DTO's types, a refusal of a field by its name, or
-- a failed statement of the database, or the row that stands afterwards.
pub data Updated {ℓ} (H : Type ℓ) : Type ℓ where
  unreadable forbidden failed : Updated H
  refused : Text → Updated H
  updated : Stored H → Updated H

-- An Option<i32>.
abbrev pub is_i32 : Option ℤ → Bool
is_i32 none = true
is_i32 (some n) =
    (abs n % 1000 == 0) && leb_ℤ (negsuc 2147483647999) n && leb_ℤ n (pos 2147483647000)

abbrev pub or_else {ℓ} : {A : Type ℓ} → A → Option A → A
or_else a none = a
or_else a (some b) = b

-- is_valid_theme
abbrev pub is_valid_theme : Text → Bool
is_valid_theme key = any (λ (k : ThemeKey). same_text (key_text k) key) theme_keys

abbrev pub bad_theme : Option Text → Bool
bad_theme none = false
bad_theme (some key) = not (is_valid_theme key)

abbrev pub bad_ratio : Option ℤ → Bool
bad_ratio none = false
bad_ratio (some n) = not (leb_ℤ (pos 0) n && leb_ℤ n (pos 1000))

-- The range that the patch of the number of members is filtered by.
abbrev pub in_range : ℤ → Option ℤ → ℤ
in_range old none = old
in_range old (some n) = if leb_ℤ (pos 2000) n && leb_ℤ n (pos 100000) then n else old

module _ {ℓ} {H : Type ℓ} (str_trim : Text → Text) (chars bytes : Text → ℕ) (hash : Text → H) where
  abbrev pub bad_name : Option Text → Bool
  bad_name none = false
  bad_name (some t) = ltb (chars (str_trim t)) 2 || ltb 60 (chars (str_trim t))

  abbrev pub bad_password : Field Text → Bool
  bad_password (given raw) = ltb (bytes (str_trim raw)) 4
  bad_password _ = false

  abbrev pub new_name : Text → Option Text → Text
  new_name old none = old
  new_name old (some t) = str_trim t

  abbrev pub new_topic : Option Text → Field Text → Option Text
  new_topic old absent = old
  new_topic old cleared = none
  new_topic old (given t) = if is_empty (str_trim t) then none else some (str_trim t)

  -- The CHECK on the column topic, of a topic that is written; the one in the row has passed it.
  abbrev pub bad_topic : Field Text → Bool
  bad_topic (given t) = not (is_empty (str_trim t)) && ltb 200 (chars (str_trim t))
  bad_topic _ = false

  abbrev pub new_hash : Option H → Field Text → Option H
  new_hash old absent = old
  new_hash old cleared = none
  new_hash old (given raw) = some (hash (str_trim raw))

  -- The settings that are written over, and the columns of db::rooms::update.
  unfoldable pub patched : UpdateRoomRequest → Stored H → Stored H
  patched body room =
      let d = room.details in
      record {
        details = record {
          name = new_name d.name body.name;
          topic = new_topic d.topic body.topic;
          visibility = or_else d.visibility body.visibility;
          category = or_else d.category body.category;
          max_participants = in_range d.max_participants body.max_participants;
          allow_guest_control = or_else d.allow_guest_control body.allow_guest_control;
          allow_guest_queue = or_else d.allow_guest_queue body.allow_guest_queue;
          vote_skip_ratio = or_else d.vote_skip_ratio body.vote_skip_ratio;
          auto_advance = or_else d.auto_advance body.auto_advance;
          theme = or_else d.theme body.theme;
          theme_mode = or_else d.theme_mode body.theme_mode;
        };
        password_hash = new_hash room.password_hash body.password;
      }

  -- update_room, by someone who may edit the room or not.
  unfoldable pub update_room : Bool → UpdateRoomRequest → Stored H → Updated H
  unfolding patched
  update_room can_edit body room =
      if not (is_i32 body.max_participants)
      then unreadable
      else if not can_edit
      then forbidden
      else if bad_name body.name
      then refused (codes "name")
      else if bad_ratio body.vote_skip_ratio
      then refused (codes "voteSkipRatio")
      else if bad_theme body.theme
      then refused (codes "theme")
      else if bad_password body.password
      then refused (codes "password")
      else if bad_topic body.topic
      then failed
      else updated (patched body room)
