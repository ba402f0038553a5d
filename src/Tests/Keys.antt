-- ===== src/Tests/Keys.antt =====
-- The keys of the room's page.
use youtube_rooms.Prelude.{◌≡◌, refl, true, false, some}
use youtube_rooms.Protocol.Primitives.{Permissions}
use youtube_rooms.Protocol.Client.{sync_intent, seek}
use youtube_rooms.Clock
use youtube_rooms.Timeline.{position_at}
use youtube_rooms.Shortcuts.{
  KeyPress, Key, Room, can_control, digit, key_j, intent, scrub, seek_by, on_key, on_key_down,
}
use youtube_rooms.Shortcuts.Permission.{on_key_down-IsAllowed}
use youtube_rooms.Tests.Fixtures.{playing}

abbrev host : Permissions
host = record {
  can_control_playback = true;
  can_manage_queue = true;
  can_invite = true;
  can_kick = false;
  can_moderate_chat = false;
  can_edit_room = false;
  can_vote_skip = true;
  can_transfer_host = false;
  can_manage_roles = false;
  can_designate_successor = false;
  can_set_room_theme = false;
}

abbrev room : Room
room = record {
  clock = some Clock.new;
  timeline = some (record playing { duration = some 9600000000 });
  permissions = some host;
  engine = true;
}

abbrev press : Key → KeyPress
press key = record {
  ctrl = false;
  meta = false;
  alt = false;
  shift = false;
  typing = false;
  key = key;
}

-- Half of ten minutes.
scrubs_to_the_middle :
    (on_key_down (press (digit 5)) 0 room).sent ≡ some (sync_intent (seek 4800000000) 1)
unfolding on_key_down on_key scrub intent
scrubs_to_the_middle = refl

-- Ten seconds back from 4 s stops at the start.
stops_at_the_start :
    (on_key_down (press key_j) 0 (record room {
      timeline = some (record playing { paused = true; anchor_pos = 64000000 });
    })).sent
    ≡ some (sync_intent (seek 0) 1)
unfolding on_key_down on_key seek_by intent position_at
stops_at_the_start = refl

on_key_down-IsAllowed_example : can_control room ≡ true
unfolding on_key_down on_key scrub intent
on_key_down-IsAllowed_example =
    (on_key_down-IsAllowed (press (digit 5)) 0 room (sync_intent (seek 4800000000) 1) refl).1.0
