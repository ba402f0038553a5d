-- ===== src/Forms/Settings/Checked.antt =====
-- The body that apps/web/src/components/room/settings.tsx sends, against the schema of rest.ts.
use youtube_rooms.Prelude.{◌≤◌, ◌≡◌, refl, Bool, true, false, not, ◌&&◌, ◌||◌, arith, leb, length}
use youtube_rooms.Prelude.Text.{Text, trim, trim_twice, length-trim, is_empty}
use youtube_rooms.Protocol.Rest.{
  is_max_participants, is_password, is_topic, optional_field, nullable_field,
  is_update_room_request,
}
use youtube_rooms.Forms.Settings.{SettingsPanel, details_body, typed_topic, typed_password}

is_topic-typed_topic :
    (t : Text)
    → length t ≤ 200
    → optional_field is_topic (typed_topic (trim t)) ≡ not (is_empty (trim t))
is_topic-typed_topic t h = ground (arith, trim_twice t, length-trim t)

is_password-typed_password :
    (clear : Bool) (t : Text)
    → nullable_field is_password (typed_password clear t) ≡ (clear || is_empty t || is_password t)
is_password-typed_password true t = refl
is_password-typed_password false t = ground arith

-- Where the fields hold no more than their maxLength, updateRoomRequest takes the body exactly where
-- the trimmed name has 2 units, the topic is not blank, the number of members is whole and from 2 to
-- 100, and a password that is given has 4 to 128 units: the null that the panel sends for a blank topic
-- is refused.
pub details_body-is_update_room_request :
    (p : SettingsPanel)
    → length p.name ≤ 60
    → length p.topic ≤ 200
    → is_update_room_request (details_body p) ≡ (
        leb 2 (length (trim p.name))
        && not (is_empty (trim p.topic))
        && is_max_participants p.max_participants
        && (p.clear_password || is_empty (trim p.password) || is_password (trim p.password)))
unfolding is_update_room_request details_body
details_body-is_update_room_request p n t =
    rw
      (
        trim_twice p.name,
        is_topic-typed_topic p.topic t,
        is_password-typed_password p.clear_password (trim p.password),
      )
      (ground (arith, length-trim p.name))
