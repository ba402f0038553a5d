-- ===== src/Store.antt =====
-- apps/web/src/stores/room-store.ts: the live state of a room, and the reducer that the messages of
-- the server go through.
pub mod Members
pub mod Invariant
pub mod Chat
pub mod Duplicates
pub mod Versions
pub mod Sessions
pub mod Checked
use youtube_rooms.Prelude.{
  ℕ, suc, ◌+◌, ◌<◌, ◌≡◌, Bool, true, false, not, Option, none, some, List, [], ◌∷◌, ◌++◌, map, ltb,
  leb, ◌==◌, if◌then◌else◌, length, any, filter, find_index, set, take_last,
}
use youtube_rooms.Prelude.Int.{ℤ, pos, leb_ℤ, eqb_ℤ}
use youtube_rooms.Protocol.Primitives.{
  RoomRole, guest, Permissions, UserSummary, Participant, QueueItem, ChatMessage,
}
use youtube_rooms.Protocol.Server.{
  ServerMessage, RoomSnapshot, KickReason, room_closed, banned, Ready,
}
use youtube_rooms.Protocol.Server
use youtube_rooms.Timeline.{Timeline}

-- MAX_MESSAGES
abbrev pub max_messages : ℕ
max_messages = 300

pub data Connection : Type 0 where
  idle connecting authenticating open_state reconnecting closed : Connection

pub record SkipVotes : Type 0 where
  pub votes : ℕ
  pub needed : ℕ
  pub voters : List ℕ

-- A reaction; its id, the user's and the time joined by a dash, is the pair of the two.
pub record Reaction : Type 0 where
  pub user_id : ℕ
  pub emoji : ℕ
  pub at : ℤ

-- The data of RoomState. A set of ids is a list that holds no id twice.
pub record RoomState : Type 0 where
  pub connection : Connection
  pub self : Option UserSummary
  pub role : RoomRole
  pub permissions : Option Permissions
  pub room : Option RoomSnapshot
  pub timeline : Option Timeline
  pub participants : List Participant
  pub queue : List QueueItem
  pub queue_version : ℤ
  pub messages : List ChatMessage
  pub pinned : List ChatMessage
  pub typing : List ℕ
  pub skip_votes : SkipVotes
  pub reactions : List Reaction
  pub kicked : Option KickReason
  pub last_error : Option ℕ
  pub unread_chat : ℕ

-- initial
unfoldable pub initial : RoomState
initial = record {
  connection = idle;
  self = none;
  role = guest;
  permissions = none;
  room = none;
  timeline = none;
  participants = [];
  queue = [];
  queue_version = pos 0;
  messages = [];
  pinned = [];
  typing = [];
  skip_votes = record { votes = 0; needed = 0; voters = [] };
  reactions = [];
  kicked = none;
  last_error = none;
  unread_chat = 0;
}

-- setConnection
unfoldable pub set_connection : Connection → RoomState → RoomState
set_connection connection s = record s { connection = connection }

abbrev pub same_reaction : ℕ → ℤ → Reaction → Bool
same_reaction user at r = if r.user_id == user then eqb_ℤ r.at at else false

-- dismissReaction
unfoldable pub dismiss_reaction : ℕ → ℤ → RoomState → RoomState
dismiss_reaction user at s = record s {
  reactions = filter (λ r. not (same_reaction user at r)) s.reactions;
}

-- markChatRead
unfoldable pub mark_chat_read : RoomState → RoomState
mark_chat_read s = record s { unread_chat = 0 }

-- reset
unfoldable pub reset : RoomState → RoomState
unfolding initial
reset s = initial

-- removeFrom
unfoldable pub remove_from : List ℕ → ℕ → List ℕ
remove_from ids id = filter (λ j. not (j == id)) ids

-- Set.add, which leaves a set alone that holds the id.
unfoldable pub add_to : List ℕ → ℕ → List ℕ
add_to ids id = if any (λ j. j == id) ids then ids else ids ++ id ∷ []

abbrev pub is_user : ℕ → Participant → Bool
is_user id p = p.user.id == id

abbrev pub has_id : ℕ → ChatMessage → Bool
has_id id m = m.id == id

-- `m.nonce === nonce`, for a nonce that is a text.
abbrev pub has_nonce : ℕ → ChatMessage → Bool
has_nonce nonce m = elim m.nonce [ none ↦ false | some n ↦ n == nonce ]

-- What is appended where no nonce matches.
unfoldable pub append_new : List ChatMessage → ChatMessage → List ChatMessage
append_new messages incoming =
    let next = messages ++ incoming ∷ [] in
    if any (has_id incoming.id) messages
    then messages
    else if ltb max_messages (length next)
    then take_last max_messages next
    else next

-- The message at an index, or one that is appended where no nonce matched.
unfoldable pub put : Option ℕ → List ChatMessage → ChatMessage → List ChatMessage
put none messages incoming = append_new messages incoming
put (some index) messages incoming = set messages index incoming

unfoldable pub append_by : Option ℕ → List ChatMessage → ChatMessage → List ChatMessage
unfolding put
append_by none messages incoming = append_new messages incoming
append_by (some nonce) messages incoming =
    if nonce == 0
    then append_new messages incoming
    else put (find_index (has_nonce nonce) messages) messages incoming

-- appendMessage; the empty nonce counts as none.
unfoldable pub append_message : List ChatMessage → ChatMessage → List ChatMessage
append_message messages incoming = append_by incoming.nonce messages incoming

-- `message.userId === self?.id`
abbrev pub is_self : Option UserSummary → ℕ → Bool
is_self none id = false
is_self (some u) id = id == u.id

-- The version guard of the timeline.
abbrev pub is_stale : Option Timeline → Timeline → Bool
is_stale none tl = false
is_stale (some current) tl = leb tl.version current.version

-- One participant in place of another.
abbrev pub update_user : ℕ → (Participant → Participant) → List Participant → List Participant
update_user id f = map (λ p. if is_user id p then f p else p)

abbrev pub apply_ready : Ready → RoomState → RoomState
apply_ready r s = record s {
  self = some r.self;
  role = r.role;
  permissions = some r.permissions;
  room = some r.room;
  timeline = some r.timeline;
  participants = r.participants;
  queue = r.queue;
  messages = r.recent_messages;
  pinned = r.pinned_messages;
  kicked = none;
  last_error = none;
}

abbrev pub apply_pinned : ChatMessage → Bool → RoomState → RoomState
apply_pinned m pinned s =
    let others = filter (λ o. not (has_id m.id o)) s.pinned in
    record s {
      pinned = if pinned then m ∷ others else others;
      messages = map (λ o. if has_id m.id o then record o { pinned = pinned } else o) s.messages;
    }

-- apply
unfoldable pub apply : ServerMessage → RoomState → RoomState
apply (ServerMessage.ready r) s = apply_ready r s
apply (ServerMessage.timeline tl actor reason) s =
    if is_stale s.timeline tl then s else record s { timeline = some tl }
apply (ServerMessage.participant_joined p) s =
    if any (is_user p.user.id) s.participants
    then s
    else record s { participants = s.participants ++ p ∷ [] }
apply (ServerMessage.participant_left id) s = record s {
  participants = filter (λ p. not (is_user id p)) s.participants;
  typing = remove_from s.typing id;
}
apply (ServerMessage.participant_updated q) s = record s {
  participants = update_user q.user.id (λ p. q) s.participants;
}
apply (ServerMessage.queue_updated items version) s =
    if leb_ℤ version s.queue_version then s else record s { queue = items; queue_version = version }
apply (ServerMessage.chat_message m) s = record s {
  messages = append_message s.messages m;
  unread_chat = if is_self s.self m.author.id then s.unread_chat else s.unread_chat + 1;
}
apply (ServerMessage.chat_typing id active) s = record s {
  typing = if active then add_to s.typing id else remove_from s.typing id;
}
apply (ServerMessage.chat_pinned m pinned) s = apply_pinned m pinned s
apply (ServerMessage.reaction user emoji at) s = record s {
  reactions = take_last 24 s.reactions ++ record { user_id = user; emoji = emoji; at = at } ∷ [];
}
apply (ServerMessage.skip_vote_update votes needed voters) s = record s {
  skip_votes = record { votes = votes; needed = needed; voters = voters };
}
apply (ServerMessage.voice_state id muted in_voice) s = record s {
  participants =
      update_user id (λ p. record p { muted = muted; in_voice = in_voice }) s.participants;
}
apply (ServerMessage.voice_peer_left id) s = record s {
  participants = update_user id (λ p. record p { in_voice = false }) s.participants;
}
apply (ServerMessage.room_updated room) s = record s { room = some room }
apply (ServerMessage.permissions_updated id role permissions) s =
    if is_self s.self id then record s { role = role; permissions = some permissions } else s
apply (ServerMessage.kicked reason) s = record s { kicked = some reason }
apply (ServerMessage.error code message retry) s = record s { last_error = some message }
apply (ServerMessage.pong client_sent server_time) s = s
apply (ServerMessage.chat_read id message) s = s
apply (ServerMessage.voice_peer_joined id polite) s = s
apply (ServerMessage.voice_signal from payload) s = s
apply (ServerMessage.voice_capacity full peers) s = s

unfoldable pub apply_all : List ServerMessage → RoomState → RoomState
apply_all [] s = s
apply_all (m ∷ ms) s = apply_all ms (apply m s)
