-- ===== src/Protocol/Server.antt =====
-- packages/protocol/src/server-messages.ts: what the server sends.
use youtube_rooms.Prelude.{ℕ, Bool, Option, List}
use youtube_rooms.Prelude.Int.{ℤ}
use youtube_rooms.Protocol.Primitives.{
  RoomRole, RoomVisibility, RoomCategory, Permissions, UserSummary, Participant, QueueItem,
  ChatMessage, IceServer,
}
use youtube_rooms.Timeline.{Timeline}

pub data ThemeMode : Type 0 where
  light dark : ThemeMode

-- The settings of a room; the ratio of votes is in thousandths.
pub record RoomSettings : Type 0 where
  pub allow_guest_control : Bool
  pub allow_guest_queue : Bool
  pub vote_skip_ratio : ℕ
  pub auto_advance : Bool
  pub shuffle : Bool
  pub theme : ℕ
  pub theme_mode : ThemeMode

-- roomSnapshot
pub record RoomSnapshot : Type 0 where
  pub id : ℕ
  pub slug : ℕ
  pub name : ℕ
  pub topic : Option ℕ
  pub visibility : RoomVisibility
  pub category : RoomCategory
  pub host_id : ℕ
  pub owner_id : Option ℕ
  pub successor_id : Option ℕ
  pub created_at : ℤ
  pub max_participants : ℕ
  pub settings : RoomSettings

-- ready
pub record Ready : Type 0 where
  pub self : UserSummary
  pub role : RoomRole
  pub permissions : Permissions
  pub room : RoomSnapshot
  pub timeline : Timeline
  pub participants : List Participant
  pub queue : List QueueItem
  pub recent_messages : List ChatMessage
  pub pinned_messages : List ChatMessage
  pub ice_servers : List IceServer
  pub server_time : ℤ

pub data UpdateReason : Type 0 where
  intent advance vote_skip : UpdateReason

pub data KickReason : Type 0 where
  room_closed banned : KickReason

-- The codes of errorMessage.
pub data ErrorCode : Type 0 where
  unauthenticated forbidden rate_limited invalid_message stale_version room_full not_found
        internal :
      ErrorCode

-- serverMessage, a constructor for each value of `t`, its fields in the schema's order.
pub data ServerMessage : Type 0 where
  ready : Ready → ServerMessage
  pong : ℤ → ℤ → ServerMessage
  timeline : Timeline → Option UserSummary → UpdateReason → ServerMessage
  participant_joined : Participant → ServerMessage
  participant_left : ℕ → ServerMessage
  participant_updated : Participant → ServerMessage
  queue_updated : List QueueItem → ℤ → ServerMessage
  chat_message : ChatMessage → ServerMessage
  chat_typing : ℕ → Bool → ServerMessage
  chat_pinned : ChatMessage → Bool → ServerMessage
  chat_read : ℕ → ℕ → ServerMessage
  reaction : ℕ → ℕ → ℤ → ServerMessage
  skip_vote_update : ℕ → ℕ → List ℕ → ServerMessage
  voice_peer_joined : ℕ → Bool → ServerMessage
  voice_peer_left : ℕ → ServerMessage
  voice_signal : ℕ → ℕ → ServerMessage
  voice_state : ℕ → Bool → Bool → ServerMessage
  voice_capacity : Bool → ℤ → ServerMessage
  room_updated : RoomSnapshot → ServerMessage
  permissions_updated : ℕ → RoomRole → Permissions → ServerMessage
  kicked : KickReason → ServerMessage
  error : ErrorCode → ℕ → Option ℤ → ServerMessage
