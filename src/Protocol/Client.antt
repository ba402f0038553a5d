-- ===== src/Protocol/Client.antt =====
-- packages/protocol/src/client-messages.ts: what the browser sends.
use youtube_rooms.Prelude.{ℕ, Bool, Option}
use youtube_rooms.Prelude.Int.{ℤ}
use youtube_rooms.Prelude.Text.{Text}
use youtube_rooms.Number.{Number}

-- The actions of syncIntent; a position is on the grid of positions, a rate in quarters.
pub data SyncAction : Type 0 where
  play pause next previous restart : SyncAction
  seek : ℕ → SyncAction
  set_rate : ℕ → SyncAction
  set_loop : Bool → SyncAction
  play_now : ℕ → SyncAction

-- The payloads of voiceSignal.
pub data SignalPayload : Type 0 where
  offer answer : ℕ → SignalPayload
  candidate : ℕ → Option ℕ → Option ℤ → SignalPayload

-- The roles that setRole grants.
pub data GrantedRole : Type 0 where
  cohost member : GrantedRole

-- The reactions of reactionSend.
pub data Emoji : Type 0 where
  heart joy fire astonished clap skull tada eyes : Emoji

-- clientMessage, a constructor for each value of `t`, its fields in the schema's order.
pub data ClientMessage : Type 0 where
  authenticate : ℕ → ClientMessage
  ping : ℤ → ClientMessage
  sync_intent : SyncAction → ℕ → ClientMessage
  sync_report : Number → Number → Bool → ClientMessage
  queue_add : Text → Bool → ClientMessage
  queue_import : Text → ClientMessage
  report_duration : ℤ → ClientMessage
  playback_ready : ℕ → ClientMessage
  queue_remove : ℕ → ClientMessage
  queue_move : ℕ → ℕ → ClientMessage
  queue_clear queue_shuffle : ClientMessage
  chat_send : Text → Option ℕ → ℕ → ClientMessage
  chat_typing : Bool → ClientMessage
  chat_pin : ℕ → Bool → ClientMessage
  chat_read : ℕ → ClientMessage
  reaction_send : Emoji → ClientMessage
  skip_vote : Bool → ClientMessage
  voice_join voice_leave : ClientMessage
  voice_signal : ℕ → SignalPayload → ClientMessage
  voice_state : Bool → ClientMessage
  kick_participant : ℕ → ClientMessage
  set_role : ℕ → GrantedRole → ClientMessage
  transfer_host : ℕ → ClientMessage
  designate_successor : Option ℕ → ClientMessage
