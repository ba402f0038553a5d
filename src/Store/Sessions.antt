-- ===== src/Store/Sessions.antt =====
-- What a client may do, and what it has not read (apps/web/src/stores/room-store.ts).
use youtube_rooms.Prelude.{
  ℕ, suc, ◌+◌, ◌≡◌, refl, ap, sym, subst, ◌∙◌, false, Option, List, [], ◌∷◌, All, arith,
  if◌then◌else◌,
}
use youtube_rooms.Protocol.Primitives.{UserSummary, RoomRole, Permissions, ChatMessage}
use youtube_rooms.Protocol.Server.{ServerMessage}
use youtube_rooms.Store.Duplicates.{append_message_twice}
use youtube_rooms.Store.{RoomState, is_self, apply, apply_all}

-- Only a snapshot, and a change of authority that names this user, may change what it can do.
abbrev pub IsAboutOthers : Option UserSummary → ServerMessage → Type 0
IsAboutOthers self (ServerMessage.ready r) = ⊥
IsAboutOthers self (ServerMessage.permissions_updated id role permissions) = is_self self id ≡ false
IsAboutOthers self _ = Unit

-- Who this user is here, and what the user may do.
pub authority : RoomState → Option UserSummary × RoomRole × Option Permissions
authority s = (s.self, s.role, s.permissions)

apply-self :
    (m : ServerMessage) (s : RoomState) → IsAboutOthers s.self m → (apply m s).self ≡ s.self
unfolding apply
apply-self (ServerMessage.permissions_updated id role permissions) s h = ground arith
apply-self _ s h = ground arith

apply-authority :
    (m : ServerMessage) (s : RoomState)
    → IsAboutOthers s.self m
    → authority (apply m s) ≡ authority s
unfolding apply authority
apply-authority (ServerMessage.permissions_updated id role permissions) s h = ground arith
apply-authority _ s h = ground arith

-- However many messages arrive, as long as none is a snapshot and none changes the authority of
-- this very user, the user stays the same and keeps the role and the permissions.
pub apply_all-authority :
    (ms : List ServerMessage) (s : RoomState)
    → All (IsAboutOthers s.self) ms
    → authority (apply_all ms s) ≡ authority s
unfolding apply_all
apply_all-authority [] s h = refl
apply_all-authority (m ∷ ms) s h =
    apply_all-authority ms (apply m s)
      (subst (λ who. All (IsAboutOthers who) ms) (sym (apply-self m s h.0)) h.1)
    ∙ apply-authority m s h.0

-- How many of the messages are chat of somebody else.
abbrev pub news : Option UserSummary → List ServerMessage → ℕ
news self [] = 0
news self (ServerMessage.chat_message m ∷ ms) =
    if is_self self m.author.id then news self ms else suc (news self ms)
news self (_ ∷ ms) = news self ms

apply-unread :
    (m : ServerMessage) (ms : List ServerMessage) (s : RoomState)
    → (apply m s).unread_chat + news s.self ms ≡ s.unread_chat + news s.self (m ∷ ms)
unfolding apply
apply-unread (ServerMessage.chat_message m) ms s = ground arith
apply-unread _ ms s = ground arith

-- The unread count rises by the number of chat messages of others, whatever else arrives between.
pub apply_all-unread :
    (ms : List ServerMessage) (s : RoomState)
    → All (IsAboutOthers s.self) ms
    → (apply_all ms s).unread_chat ≡ s.unread_chat + news s.self ms
unfolding apply_all
apply_all-unread [] s h = omega arith
apply_all-unread (m ∷ ms) s h =
    let same = apply-self m s h.0 in
    apply_all-unread ms (apply m s) (subst (λ who. All (IsAboutOthers who) ms) (sym same) h.1)
    ∙ ap (λ who. (apply m s).unread_chat + news who ms) same
    ∙ apply-unread m ms s

-- A chat message of somebody else that two nodes deliver is shown once and counted twice.
pub chat_message_twice :
    (m : ChatMessage) (s : RoomState)
    → is_self s.self m.author.id ≡ false
    → let once = apply (ServerMessage.chat_message m) s in
      let twice = apply (ServerMessage.chat_message m) once in
      (twice.messages ≡ once.messages) × (twice.unread_chat ≡ s.unread_chat + 2)
unfolding apply
chat_message_twice m s h = (append_message_twice s.messages m, ground arith)
