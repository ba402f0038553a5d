-- ===== src/Protocol/Primitives.antt =====
-- packages/protocol/src/primitives.ts: the records that the messages share.
--
-- An id, and any other text that the client only compares, is a number; the empty text is 0. A text
-- that the client takes apart is the list of its code points. A time is in milliseconds.
use youtube_rooms.Prelude.{ℕ, Bool, true, false, Option, List}
use youtube_rooms.Prelude.Int.{ℤ}

-- roomRole
pub data RoomRole : Type 0 where
  host cohost member guest : RoomRole

-- roomVisibility
pub data RoomVisibility : Type 0 where
  public private unlisted : RoomVisibility

-- roomCategory
pub data RoomCategory : Type 0 where
  general anime gaming programming music movies education : RoomCategory

-- accountKind
pub data AccountKind : Type 0 where
  google guest system : AccountKind

-- permissions
pub record Permissions : Type 0 where
  pub can_control_playback : Bool
  pub can_manage_queue : Bool
  pub can_invite : Bool
  pub can_kick : Bool
  pub can_moderate_chat : Bool
  pub can_edit_room : Bool
  pub can_vote_skip : Bool
  pub can_transfer_host : Bool
  pub can_manage_roles : Bool
  pub can_designate_successor : Bool
  pub can_set_room_theme : Bool

-- userSummary
pub record UserSummary : Type 0 where
  pub id : ℕ
  pub display_name : ℕ
  pub avatar_url : Option ℕ
  pub initials : ℕ
  pub avatar_hue : ℕ
  pub kind : AccountKind

-- participant
pub record Participant : Type 0 where
  pub user : UserSummary
  pub role : RoomRole
  pub joined_at : ℤ
  pub in_voice : Bool
  pub muted : Bool
  pub drift_ms : Option ℤ

-- sourceKind
pub data SourceKind : Type 0 where
  youtube file hls dash twitch kick : SourceKind

-- mediaSource
pub record MediaSource : Type 0 where
  pub kind : SourceKind
  pub url : List ℕ
  pub video_id : Option (List ℕ)

-- mayBeLive
unfoldable pub may_be_live : MediaSource → Bool
may_be_live source = elim source.kind [ youtube ↦ false | file ↦ false | _ ↦ true ]

-- queueItem
pub record QueueItem : Type 0 where
  pub id : ℕ
  pub source : MediaSource
  pub title : ℕ
  pub channel_title : ℕ
  pub duration_seconds : ℕ
  pub thumbnail_url : ℕ
  pub added_by : UserSummary
  pub added_at : ℤ
  pub position : ℤ

-- The kinds of system messages.
pub data SystemKind : Type 0 where
  join leave skip host_changed video_changed role_changed room_closing settings_changed : SystemKind

-- chatMessage
pub record ChatMessage : Type 0 where
  pub id : ℕ
  pub author : UserSummary
  pub body : ℕ
  pub sent_at : ℤ
  pub edited_at : Option ℤ
  pub reply_to : Option ℕ
  pub pinned : Bool
  pub nonce : Option ℕ
  pub mentions : List ℕ
  pub system : Option SystemKind

-- iceServer
pub record IceServer : Type 0 where
  pub urls : List ℕ
  pub username : Option ℕ
  pub credential : Option ℕ
