-- ===== src/Forms/NewRoom/Answered.antt =====
-- What the form of apps/web/src/routes/rooms.new.tsx shows of an answer.
use youtube_rooms.Prelude.{◌≡◌, Bool, true, false, not, ◌||◌, Option, none, some, arith, is_some}
use youtube_rooms.Prelude.Text.{codes, is_empty}
use youtube_rooms.Api.Errors.{Fields, ApiError, get_field}
use youtube_rooms.Forms.NewRoom.{NewRoomPage, shows_error, on_created, failed, threw, name_message}

-- Whether a refusal has a message for one of the two fields that show one: a refusal without fields
-- has its own message beside the name.
abbrev pub is_placed {ℓ} : {N : Type ℓ} → ApiError N → Option Fields → Bool
is_placed e none = not (is_empty e.message)
is_placed e (some fields) =
    name_message (get_field (codes "name") fields) || is_some (get_field (codes "password") fields)

module _ {ℓ} {N : Type ℓ} where
  -- A refusal ends the wait and is shown exactly where it has no fields, and a message, or a message
  -- for the name or the password: the server's refusal of the number of members names neither, and
  -- the form then shows nothing. An answer that is no ApiError is always shown.
  pub on_created-shows_error :
      (p : NewRoomPage) (e : ApiError N)
      → (shows_error (on_created (failed e) p) ≡ is_placed e e.fields)
        × ((on_created (failed e) p).busy ≡ false)
        × (shows_error (on_created {N = N} threw p) ≡ true)
        × ((on_created {N = N} threw p).busy ≡ false)
  unfolding on_created shows_error
  on_created-shows_error p e = ground arith
