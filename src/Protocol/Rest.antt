-- ===== src/Protocol/Rest.antt =====
-- packages/protocol/src/rest.ts: what the requests of the HTTP interface carry, and which of them its
-- schemas take.
--
-- A number that a form takes from a field, and the ratio of votes, is in thousandths.
use youtube_rooms.Prelude.{
  ◌%◌, Bool, true, false, ◌&&◌, Option, none, some, List, ◌==◌, leb, length,
}
use youtube_rooms.Prelude.Int.{ℤ, pos, abs, leb_ℤ}
use youtube_rooms.Prelude.Text.{Text, trim}
use youtube_rooms.Protocol.Primitives.{RoomVisibility, RoomCategory}
use youtube_rooms.Protocol.Schema.{is_long, is_display_name, is_video_id, every}
use youtube_rooms.Protocol.Server.{ThemeMode}

-- A field of a body: left out, null, or a value.
pub data Field {ℓ} (A : Type ℓ) : Type ℓ where
  absent cleared : Field A
  given : A → Field A

-- guestLoginRequest
pub record GuestLoginRequest : Type 0 where
  pub display_name : Text

unfoldable pub is_guest_login_request : GuestLoginRequest → Bool
is_guest_login_request r = is_display_name r.display_name

-- createRoomRequest
pub record CreateRoomRequest : Type 0 where
  pub name : Text
  pub topic : Option Text
  pub visibility : RoomVisibility
  pub category : RoomCategory
  pub password : Option Text
  pub max_participants : ℤ
  pub allow_guest_control : Bool
  pub allow_guest_queue : Bool
  pub initial_video_ids : List Text
  pub theme : Option Text
  pub theme_mode : Option ThemeMode

-- optional()
abbrev pub optional {ℓ} : {A : Type ℓ} → (A → Bool) → Option A → Bool
optional check none = true
optional check (some a) = check a

-- The checks of the single fields; z.number().int() wants a whole number.
abbrev pub is_room_name : Text → Bool
is_room_name t = is_long 2 60 (trim t)

abbrev pub is_topic : Text → Bool
is_topic t = is_long 0 200 (trim t)

abbrev pub is_password : Text → Bool
is_password t = is_long 4 128 t

abbrev pub is_max_participants : ℤ → Bool
is_max_participants n = (abs n % 1000 == 0) && leb_ℤ (pos 2000) n && leb_ℤ n (pos 100000)

abbrev pub is_theme : Text → Bool
is_theme t = is_long 0 32 t

unfoldable pub is_create_room_request : CreateRoomRequest → Bool
is_create_room_request r =
    is_room_name r.name
    && optional is_topic r.topic
    && optional is_password r.password
    && is_max_participants r.max_participants
    && leb (length r.initial_video_ids) 50
    && every is_video_id r.initial_video_ids
    && optional is_theme r.theme

-- updateRoomRequest, whose fields may all be left out; `initialVideoIds`, which it takes over from
-- createRoomRequest, is a field that the client never sends.
pub record UpdateRoomRequest : Type 0 where
  pub name : Option Text
  pub topic : Field Text
  pub visibility : Option RoomVisibility
  pub category : Option RoomCategory
  pub max_participants : Option ℤ
  pub password : Field Text
  pub allow_guest_control : Option Bool
  pub allow_guest_queue : Option Bool
  pub vote_skip_ratio : Option ℤ
  pub auto_advance : Option Bool
  pub theme : Option Text
  pub theme_mode : Option ThemeMode

-- A field that may be left out, and one that may be null besides.
abbrev pub optional_field {ℓ} : {A : Type ℓ} → (A → Bool) → Field A → Bool
optional_field check absent = true
optional_field check cleared = false
optional_field check (given a) = check a

abbrev pub nullable_field {ℓ} : {A : Type ℓ} → (A → Bool) → Field A → Bool
nullable_field check absent = true
nullable_field check cleared = true
nullable_field check (given a) = check a

abbrev pub is_ratio : ℤ → Bool
is_ratio n = leb_ℤ (pos 0) n && leb_ℤ n (pos 1000)

unfoldable pub is_update_room_request : UpdateRoomRequest → Bool
is_update_room_request r =
    optional is_room_name r.name
    && optional_field is_topic r.topic
    && optional is_max_participants r.max_participants
    && nullable_field is_password r.password
    && optional is_ratio r.vote_skip_ratio
    && optional is_theme r.theme

-- roomListQuery
pub data Sort : Type 0 where
  trending newest active : Sort

pub record RoomListQuery : Type 0 where
  pub sort : Sort
  pub category : Option RoomCategory
  pub q : Option Text
  pub cursor : Option Text
  pub limit : Option ℤ

abbrev pub is_limit : ℤ → Bool
is_limit n = (abs n % 1000 == 0) && leb_ℤ (pos 1000) n && leb_ℤ n (pos 50000)

unfoldable pub is_room_list_query : RoomListQuery → Bool
is_room_list_query r =
    optional (is_long 0 80) r.q && optional (is_long 0 128) r.cursor && optional is_limit r.limit
