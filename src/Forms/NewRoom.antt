-- ===== src/Forms/NewRoom.antt =====
-- apps/web/src/routes/rooms.new.tsx: the form that creates a room.
pub mod Sent
pub mod Answered
use youtube_rooms.Prelude.{
  ℕ, suc, Bool, true, false, not, ◌&&◌, ◌||◌, Option, none, some, List, [], ◌∷◌, ltb, length,
  if◌then◌else◌, is_some,
}
use youtube_rooms.Prelude.Int.{ℤ, pos}
use youtube_rooms.Prelude.Text.{Text, codes, trim, is_empty}
use youtube_rooms.Api.Errors.{Fields, get_field, ApiError}
use youtube_rooms.Protocol.Primitives.{
  RoomVisibility, private, RoomCategory, general, AccountKind, google, guest, system, UserSummary,
}
use youtube_rooms.Protocol.Rest.{CreateRoomRequest}
use youtube_rooms.Session.{SessionState, loading, anonymous, authenticated}

-- What the page shows: SignInToCreate is told whether the visitor is a guest.
pub data Screen : Type 0 where
  spinner form : Screen
  sign_in_to_create : Bool → Screen

abbrev pub screen_of_kind : AccountKind → Screen
screen_of_kind guest = sign_in_to_create true
screen_of_kind google = form
screen_of_kind system = form

unfoldable pub screen : SessionState → Screen
screen loading = spinner
screen anonymous = sign_in_to_create false
screen (authenticated user) = screen_of_kind user.kind

-- The state of NewRoomPage; the bodies it sent, newest first, how many requests have answered, and
-- the rooms it went to.
pub record NewRoomPage : Type 0 where
  pub name : Text
  pub visibility : RoomVisibility
  pub category : RoomCategory
  pub max_participants : ℤ
  pub password : Text
  pub allow_guest_queue : Bool
  pub allow_guest_control : Bool
  pub errors : Fields
  pub busy : Bool
  pub sent : List CreateRoomRequest
  pub answered : ℕ
  pub went_to : List Text

abbrev pub blank : NewRoomPage
blank = record {
  name = [];
  visibility = private;
  category = general;
  max_participants = pos 25000;
  password = [];
  allow_guest_queue = true;
  allow_guest_control = false;
  errors = [];
  busy = false;
  sent = [];
  answered = 0;
  went_to = [];
}

abbrev pub typed_password : Text → Option Text
typed_password t = if is_empty t then none else some t

-- The body of the request; what it leaves out is none, and so are the seeds of the queue.
unfoldable pub create_body : NewRoomPage → CreateRoomRequest
create_body p = record {
  name = trim p.name;
  topic = none;
  visibility = p.visibility;
  category = p.category;
  password = typed_password (trim p.password);
  max_participants = p.max_participants;
  allow_guest_control = p.allow_guest_control;
  allow_guest_queue = p.allow_guest_queue;
  initial_video_ids = [];
  theme = none;
  theme_mode = none;
}

abbrev pub too_short : Fields
too_short = (codes "name", codes "Give the room a name of at least 2 characters.") ∷ []

abbrev pub not_created : Fields
not_created = (codes "name", codes "Could not create the room. Please try again.") ∷ []

-- submit, up to its request.
unfoldable pub submit_room : NewRoomPage → NewRoomPage
submit_room p =
    if ltb (length (trim p.name)) 2
    then record p { errors = too_short }
    else record p { errors = []; busy = true; sent = create_body p ∷ p.sent }

-- What the request comes to: a room's slug, an ApiError, or something else that is thrown.
pub data Answer {ℓ} (N : Type ℓ) : Type ℓ where
  created : Text → Answer N
  failed : ApiError N → Answer N
  threw : Answer N

abbrev pub fields_or {ℓ} : {N : Type ℓ} → ApiError N → Option Fields → Fields
fields_or e none = (codes "name", e.message) ∷ []
fields_or e (some fields) = fields

module _ {ℓ} {N : Type ℓ} where
  -- submit, behind its request.
  unfoldable pub on_created : Answer N → NewRoomPage → NewRoomPage
  on_created (created slug) p = record p {
    busy = false;
    answered = suc p.answered;
    went_to = slug ∷ p.went_to;
  }
  on_created (failed e) p = record p {
    busy = false;
    answered = suc p.answered;
    errors = fields_or e e.fields;
  }
  on_created threw p = record p { busy = false; answered = suc p.answered; errors = not_created }

-- The messages beside the two fields that have one: that of the name, if it is not empty, and that of
-- the password, which stands in place of the hint.
abbrev pub name_message : Option Text → Bool
name_message none = false
name_message (some t) = not (is_empty t)

unfoldable pub shows_error : NewRoomPage → Bool
shows_error p =
    name_message (get_field (codes "name") p.errors)
    || is_some (get_field (codes "password") p.errors)

pub data Event {ℓ} (N : Type ℓ) : Type ℓ where
  types_name types_password : Text → Event N
  picks_visibility : RoomVisibility → Event N
  picks_category : RoomCategory → Event N
  types_max : ℤ → Event N
  toggles_queue toggles_control : Bool → Event N
  submits : Event N
  answers : Answer N → Event N

module _ {ℓ} {N : Type ℓ} where
  -- What the form does; the button is disabled while it is busy.
  unfoldable pub on_form : NewRoomPage → Event N → NewRoomPage
  on_form p (types_name t) = record p { name = t }
  on_form p (types_password t) = record p { password = t }
  on_form p (picks_visibility v) = record p { visibility = v }
  on_form p (picks_category c) = record p { category = c }
  on_form p (types_max n) = record p { max_participants = n }
  on_form p (toggles_queue b) = record p { allow_guest_queue = b }
  on_form p (toggles_control b) = record p { allow_guest_control = b }
  on_form p submits = if p.busy then p else submit_room p
  on_form p (answers a) = p

  abbrev pub on_screen : Screen → NewRoomPage → Event N → NewRoomPage
  on_screen form p e = on_form p e
  on_screen spinner p e = p
  on_screen (sign_in_to_create b) p e = p

  -- An event under a session: an answer comes while a request is out, whatever is shown.
  unfoldable pub step : SessionState → NewRoomPage → Event N → NewRoomPage
  step session p (answers a) = if p.busy then on_created a p else p
  step session p e = on_screen (screen session) p e

  unfoldable pub run : NewRoomPage → List (SessionState × Event N) → NewRoomPage
  run p [] = p
  run p ((session, e) ∷ es) = run (step session p e) es
