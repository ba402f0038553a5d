-- ===== src/Forms/Settings.antt =====
-- apps/web/src/components/room/settings.tsx: the panel of a room's settings.
pub mod Saved
pub mod Patched
pub mod Checked
use youtube_rooms.Prelude.{Bool, true, false, Option, none, some, List, [], ◌∷◌, if◌then◌else◌}
use youtube_rooms.Prelude.Int.{ℤ, pos}
use youtube_rooms.Prelude.Text.{Text, codes, trim, is_empty}
use youtube_rooms.Api.Errors.{Fields, ApiError}
use youtube_rooms.Protocol.Primitives.{RoomVisibility, private, RoomCategory, general}
use youtube_rooms.Protocol.Rest.{Field, absent, cleared, given, UpdateRoomRequest}
use youtube_rooms.Protocol.Server.{ThemeMode}
use youtube_rooms.Theme.{ThemeKey, key_text}
use youtube_rooms.Forms.Update.{RoomDetails}

pub data Toast : Type 0 where
  success : Toast
  error : Text → Toast

-- The state of SettingsPanel, `room` of the store, whether the last mutation is pending, the toasts and
-- the patches that were sent, newest first.
pub record SettingsPanel : Type 0 where
  pub room : Option RoomDetails
  pub name : Text
  pub topic : Text
  pub visibility : RoomVisibility
  pub category : RoomCategory
  pub max_participants : ℤ
  pub password : Text
  pub clear_password : Bool
  pub allow_guest_queue : Bool
  pub allow_guest_control : Bool
  pub auto_advance : Bool
  pub vote_skip_ratio : ℤ
  pub errors : Fields
  pub is_pending : Bool
  pub toasts : List Toast
  pub patches : List UpdateRoomRequest

abbrev pub blank : SettingsPanel
blank = record {
  room = none;
  name = [];
  topic = [];
  visibility = private;
  category = general;
  max_participants = pos 25000;
  password = [];
  clear_password = false;
  allow_guest_queue = true;
  allow_guest_control = false;
  auto_advance = true;
  vote_skip_ratio = pos 500;
  errors = [];
  is_pending = false;
  toasts = [];
  patches = [];
}

abbrev pub or_blank : Option Text → Text
or_blank none = []
or_blank (some t) = t

-- The effect on the room.
unfoldable pub seed_from : Option RoomDetails → SettingsPanel → SettingsPanel
seed_from none p = p
seed_from (some r) p = record p {
  name = r.name;
  topic = or_blank r.topic;
  visibility = r.visibility;
  category = r.category;
  max_participants = r.max_participants;
  allow_guest_queue = r.allow_guest_queue;
  allow_guest_control = r.allow_guest_control;
  auto_advance = r.auto_advance;
  vote_skip_ratio = r.vote_skip_ratio;
}

unfoldable pub change_room : Option RoomDetails → SettingsPanel → SettingsPanel
unfolding seed_from
change_room r p = seed_from r (record p { room = r })

-- save.mutate, up to its wait.
unfoldable pub mutate : UpdateRoomRequest → SettingsPanel → SettingsPanel
mutate patch p = record p { is_pending = true; patches = patch ∷ p.patches }

-- A body that leaves everything out.
abbrev pub no_patch : UpdateRoomRequest
no_patch = record {
  name = none;
  topic = absent;
  visibility = none;
  category = none;
  max_participants = none;
  password = absent;
  allow_guest_control = none;
  allow_guest_queue = none;
  vote_skip_ratio = none;
  auto_advance = none;
  theme = none;
  theme_mode = none;
}

abbrev pub typed_topic : Text → Field Text
typed_topic t = if is_empty t then cleared else given t

abbrev pub typed_password : Bool → Text → Field Text
typed_password true t = cleared
typed_password false t = if is_empty t then absent else given t

-- The body of submitDetails.
unfoldable pub details_body : SettingsPanel → UpdateRoomRequest
details_body p = record no_patch {
  name = some (trim p.name);
  topic = typed_topic (trim p.topic);
  visibility = some p.visibility;
  category = some p.category;
  max_participants = some p.max_participants;
  password = typed_password p.clear_password (trim p.password);
}

-- The controls that send one field at once: the three switches, the slider, and RoomTheme.
pub data Patch : Type 0 where
  guest_queue guest_control advance : Bool → Patch
  skip_ratio : ℤ → Patch
  theme : ThemeKey → Patch
  theme_mode : ThemeMode → Patch

unfoldable pub patch_body : Patch → UpdateRoomRequest
patch_body (guest_queue next) = record no_patch { allow_guest_queue = some next }
patch_body (guest_control next) = record no_patch { allow_guest_control = some next }
patch_body (advance next) = record no_patch { auto_advance = some next }
patch_body (skip_ratio n) = record no_patch { vote_skip_ratio = some n }
patch_body (theme key) = record no_patch { theme = some (key_text key) }
patch_body (theme_mode mode) = record no_patch { theme_mode = some mode }

-- What such a control sets in the panel before it sends; the slider's value is set as it moves.
unfoldable pub set_patch : Patch → SettingsPanel → SettingsPanel
set_patch (guest_queue next) p = record p { allow_guest_queue = next }
set_patch (guest_control next) p = record p { allow_guest_control = next }
set_patch (advance next) p = record p { auto_advance = next }
set_patch (skip_ratio n) p = record p { vote_skip_ratio = n }
set_patch _ p = p

-- save's callbacks; an answer to the last mutation ends the wait.
unfoldable pub on_saved : Bool → SettingsPanel → SettingsPanel
on_saved latest p = record p {
  is_pending = if latest then false else p.is_pending;
  errors = [];
  password = [];
  clear_password = false;
  toasts = success ∷ p.toasts;
}

abbrev pub not_saved : Text
not_saved = codes "Could not save those settings."

abbrev pub report_failure {ℓ} :
    {N : Type ℓ} → ApiError N → Option Fields → SettingsPanel → SettingsPanel
report_failure e none p = record p { toasts = error e.message ∷ p.toasts }
report_failure e (some fields) p = record p { errors = fields }

-- None is a failure that is no ApiError.
unfoldable pub on_save_failed {ℓ} :
    {N : Type ℓ} → Bool → Option (ApiError N) → SettingsPanel → SettingsPanel
on_save_failed latest none p = record p {
  is_pending = if latest then false else p.is_pending;
  toasts = error not_saved ∷ p.toasts;
}
on_save_failed latest (some e) p =
    report_failure e e.fields (record p { is_pending = if latest then false else p.is_pending })

-- What is there of the panel.
pub data View : Type 0 where
  nothing only_host settings : View

unfoldable pub view : Bool → Option RoomDetails → View
view can_edit none = nothing
view can_edit (some room) = if can_edit then settings else only_host

pub data Event {ℓ} (N : Type ℓ) : Type ℓ where
  types_name types_topic types_password : Text → Event N
  picks_visibility : RoomVisibility → Event N
  picks_category : RoomCategory → Event N
  types_max slides : ℤ → Event N
  clears : Bool → Event N
  submits releases : Event N
  patches : Patch → Event N
  changes : Option RoomDetails → Event N
  saved : Bool → Event N
  failed : Bool → Option (ApiError N) → Event N

module _ {ℓ} {N : Type ℓ} where
  -- The handlers of the form; the password's field is disabled while it is to be removed, and the button
  -- while a mutation is pending. `releases` is the slider's onPointerUp and onKeyUp.
  unfoldable pub on_settings : SettingsPanel → Event N → SettingsPanel
  on_settings p (types_name t) = record p { name = t }
  on_settings p (types_topic t) = record p { topic = t }
  on_settings p (types_password t) = if p.clear_password then p else record p { password = t }
  on_settings p (picks_visibility v) = record p { visibility = v }
  on_settings p (picks_category c) = record p { category = c }
  on_settings p (types_max n) = record p { max_participants = n }
  on_settings p (slides n) = record p { vote_skip_ratio = n }
  on_settings p (clears b) = record p { clear_password = b }
  on_settings p submits = if p.is_pending then p else mutate (details_body p) p
  on_settings p releases = mutate (patch_body (skip_ratio p.vote_skip_ratio)) p
  on_settings p (Event.patches patch) = mutate (patch_body patch) (set_patch patch p)
  on_settings p _ = p

  abbrev pub on_view : View → SettingsPanel → Event N → SettingsPanel
  on_view settings p e = on_settings p e
  on_view nothing p e = p
  on_view only_host p e = p

  -- An event, for a viewer who may edit the room or not.
  unfoldable pub step : Bool → SettingsPanel → Event N → SettingsPanel
  step can_edit p (changes r) = change_room r p
  step can_edit p (saved latest) = on_saved latest p
  step can_edit p (failed latest e) = on_save_failed latest e p
  step can_edit p e = on_view (view can_edit p.room) p e

  unfoldable pub run : SettingsPanel → List (Bool × Event N) → SettingsPanel
  run p [] = p
  run p ((can_edit, e) ∷ es) = run (step can_edit p e) es
