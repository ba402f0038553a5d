-- ===== src/Protocol/Checked.antt =====
-- The checks of packages/protocol/src/server-messages.ts, and of the records of primitives.ts and
-- timeline.ts: which of the messages of Server its schema takes, as the socket parses them.
--
-- An id stands for a text of the form of a uuid. Names, initials, bodies and nonces, which are numbers
-- in Primitives, stand for texts that the schema takes; z.url is a parameter.
use youtube_rooms.Prelude.{Bool, true, ◌&&◌, leb}
use youtube_rooms.Prelude.Text.{Text}
use youtube_rooms.Protocol.Primitives.{
  UserSummary, Participant, MediaSource, QueueItem, ChatMessage,
}
use youtube_rooms.Protocol.Rest.{optional}
use youtube_rooms.Protocol.Schema.{every, is_video_id}
use youtube_rooms.Protocol.Server
use youtube_rooms.Protocol.Server.{Ready, RoomSnapshot, ServerMessage}
use youtube_rooms.Timeline.{Timeline}

-- userSummary and participant
abbrev pub is_user_summary : UserSummary → Bool
is_user_summary u = leb u.avatar_hue 359

abbrev pub is_participant : Participant → Bool
is_participant p = is_user_summary p.user

-- chatMessage
abbrev pub is_chat_message : ChatMessage → Bool
is_chat_message m = is_user_summary m.author

-- roomSnapshot
abbrev pub is_room_snapshot : RoomSnapshot → Bool
is_room_snapshot r = leb 1 r.max_participants && leb r.settings.vote_skip_ratio 1000

module _ (is_url : Text → Bool) where
  -- mediaSource and queueItem
  abbrev pub is_media_source : MediaSource → Bool
  is_media_source source = is_url source.url && optional is_video_id source.video_id

  abbrev pub is_queue_item : QueueItem → Bool
  is_queue_item item = is_media_source item.source && is_user_summary item.added_by

  -- timeline
  abbrev pub is_timeline : Timeline → Bool
  is_timeline tl = optional is_media_source tl.source && leb 1 tl.rate && leb tl.rate 8

  -- ready
  unfoldable pub is_ready : Ready → Bool
  is_ready r =
      is_user_summary r.self
      && is_room_snapshot r.room
      && is_timeline r.timeline
      && every is_participant r.participants
      && every is_queue_item r.queue
      && every is_chat_message r.recent_messages
      && every is_chat_message r.pinned_messages

  -- serverMessage
  unfoldable pub is_server_message : ServerMessage → Bool
  unfolding is_ready
  is_server_message (Server.ready r) = is_ready r
  is_server_message (Server.timeline tl actor reason) =
      is_timeline tl && optional is_user_summary actor
  is_server_message (Server.participant_joined p) = is_participant p
  is_server_message (Server.participant_updated p) = is_participant p
  is_server_message (Server.queue_updated items version) = every is_queue_item items
  is_server_message (Server.chat_message m) = is_chat_message m
  is_server_message (Server.chat_pinned m pinned) = is_chat_message m
  is_server_message (Server.room_updated room) = is_room_snapshot room
  is_server_message _ = true
