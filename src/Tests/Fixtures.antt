-- ===== src/Tests/Fixtures.antt =====
-- A room, its people and its messages, for the tests.
use youtube_rooms.Prelude.Text.{Text, codes, is_empty}
use youtube_rooms.Prelude.{ℕ, Bool, true, false, not, Option, none, some, [], ◌∷◌}
use youtube_rooms.Prelude.Int.{pos}
use youtube_rooms.Protocol.Primitives.{
  UserSummary, Participant, ChatMessage, MediaSource, Permissions, google, general, member, youtube,
  public,
}
use youtube_rooms.Protocol.Server.{Ready, RoomSnapshot, dark}
use youtube_rooms.Timeline.{Timeline}

-- A stand-in for the URL parser's test.
abbrev pub any_url : Text → Bool
any_url t = not (is_empty t)

abbrev pub video : MediaSource
video = record { kind = youtube; url = 104 ∷ []; video_id = some (codes "dQw4w9WgXcQ") }

-- Anchored at 10 s of playback and 1000 ms of server time, at rate 1.
abbrev pub playing : Timeline
playing = record {
  source = some video;
  anchor_pos = 160000000;
  anchor_at = pos 4000000;
  rate = 4;
  paused = false;
  version = 1;
  queue_item_id = none;
  loop = false;
  duration = none;
  awaiting_start = false;
}

abbrev pub user : ℕ → UserSummary
user id = record {
  id = id;
  display_name = 11;
  avatar_url = none;
  initials = 12;
  avatar_hue = 200;
  kind = google;
}

abbrev pub participant : ℕ → Participant
participant id = record {
  user = user id;
  role = member;
  joined_at = pos 5;
  in_voice = false;
  muted = true;
  drift_ms = none;
}

abbrev pub chat : ℕ → ℕ → Option ℕ → ChatMessage
chat id author nonce = record {
  id = id;
  author = user author;
  body = 21;
  sent_at = pos 7;
  edited_at = none;
  reply_to = none;
  pinned = false;
  nonce = nonce;
  mentions = [];
  system = none;
}

abbrev pub everything : Permissions
everything = record {
  can_control_playback = true;
  can_manage_queue = true;
  can_invite = true;
  can_kick = true;
  can_moderate_chat = true;
  can_edit_room = true;
  can_vote_skip = true;
  can_transfer_host = true;
  can_manage_roles = true;
  can_designate_successor = true;
  can_set_room_theme = true;
}

abbrev pub room : RoomSnapshot
room = record {
  id = 31;
  slug = 32;
  name = 33;
  topic = none;
  visibility = public;
  category = general;
  host_id = 1;
  owner_id = some 1;
  successor_id = none;
  created_at = pos 3;
  max_participants = 25;
  settings = record {
    allow_guest_control = false;
    allow_guest_queue = true;
    vote_skip_ratio = 500;
    auto_advance = true;
    shuffle = false;
    theme = 34;
    theme_mode = dark;
  };
}

-- The snapshot that user 1 gets, with user 2 in the room.
abbrev pub snapshot : Ready
snapshot = record {
  self = user 1;
  role = member;
  permissions = everything;
  room = room;
  timeline = playing;
  participants = participant 1 ∷ participant 2 ∷ [];
  queue = [];
  recent_messages = chat 41 2 none ∷ [];
  pinned_messages = [];
  ice_servers = [];
  server_time = pos 1000;
}
