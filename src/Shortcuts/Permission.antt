-- ===== src/Shortcuts/Permission.antt =====
-- Who a key of apps/web/src/hooks/use-room-shortcuts.ts lets move the room.
use youtube_rooms.Prelude.{
  ℕ, ◌≡◌, Bool, true, false, ◌||◌, Option, none, some, arith, is_some, if◌then◌else◌,
}
use youtube_rooms.Protocol.Client.{SyncAction, ClientMessage, sync_intent}
use youtube_rooms.Shortcuts.{
  Key, digit, KeyPress, Room, can_control, intent, seek_by, scrub, on_key, on_key_down,
}

-- The version that a move of the timeline is asked for.
abbrev pub move_of : ClientMessage → Option ℕ
move_of (sync_intent action version) = some version
move_of _ = none

abbrev pub version_of : Room → Option ℕ
version_of room = elim room.timeline [
  | none ↦ none
  | some tl ↦ if is_some tl.source then some tl.version else none
]

-- A message that a user who may control the playback sends, of the timeline that is on screen.
abbrev pub IsAllowed : Room → ClientMessage → Type 0
IsAllowed room m =
    (can_control room ≡ true) × (is_some (version_of room) ≡ true) × (move_of m ≡ version_of room)

intent-IsAllowed :
    (action : SyncAction) (room : Room) (m : ClientMessage)
    → intent action room ≡ some m
    → IsAllowed room m
unfolding intent
intent-IsAllowed action room m e = ground arith

seek_by-IsAllowed :
    (forwards : Bool) (distance_ms now : ℕ) (room : Room) (m : ClientMessage)
    → seek_by forwards distance_ms now room ≡ some m
    → IsAllowed room m
unfolding seek_by intent
seek_by-IsAllowed forwards distance_ms now room m e = ground arith

scrub-IsAllowed :
    (n : ℕ) (room : Room) (m : ClientMessage) → (scrub n room).sent ≡ some m → IsAllowed room m
unfolding scrub intent
scrub-IsAllowed n room m e = ground arith

on_key-IsAllowed :
    (key : Key) (shift : Bool) (now : ℕ) (room : Room) (m : ClientMessage)
    → (on_key key shift now room).sent ≡ some m
    → IsAllowed room m
unfolding on_key
on_key-IsAllowed (digit n) shift now room m e = ground (arith, scrub-IsAllowed n room m)
on_key-IsAllowed Key.toggle shift now room m e = intent-IsAllowed _ room m e
on_key-IsAllowed Key.arrow_right shift now room m e = seek_by-IsAllowed _ _ now room m e
on_key-IsAllowed Key.arrow_left shift now room m e = seek_by-IsAllowed _ _ now room m e
on_key-IsAllowed Key.key_l shift now room m e = seek_by-IsAllowed _ _ now room m e
on_key-IsAllowed Key.key_j shift now room m e = seek_by-IsAllowed _ _ now room m e
on_key-IsAllowed Key.key_n shift now room m e = intent-IsAllowed _ room m e
on_key-IsAllowed Key.key_p shift now room m e = intent-IsAllowed _ room m e
on_key-IsAllowed _ shift now room m e = cc

-- A key of the page sends only where none of ctrl, meta and alt is held and nobody types, only for a user
-- who may control the playback, and then only a move of the timeline that is on screen, for its version.
pub on_key_down-IsAllowed :
    (press : KeyPress) (now : ℕ) (room : Room) (m : ClientMessage)
    → (on_key_down press now room).sent ≡ some m
    → ((press.ctrl || press.meta || press.alt || press.typing) ≡ false) × IsAllowed room m
unfolding on_key_down
on_key_down-IsAllowed press now room m e =
    ground (arith, on_key-IsAllowed press.key press.shift now room m)
