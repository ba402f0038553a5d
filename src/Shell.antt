-- ===== src/Shell.antt =====
-- apps/web/src/components/room/room-shell.tsx: the life of the socket of a room, what is on the screen,
-- and the panel in front.
pub mod Unread
pub mod Wired
pub mod Theatre
pub mod Actions
use youtube_rooms.Prelude.{
  ℕ, ◌==◌, Bool, true, false, not, ◌||◌, ◌&&◌, ◌-◌, Option, none, some, List, [], ◌∷◌, ltb, length,
  drop, if◌then◌else◌, is_some,
}
use youtube_rooms.Protocol.Server.{KickReason, room_closed}
use youtube_rooms.Session.{SessionState, loading, anonymous, authenticated}
use youtube_rooms.Store.{
  Connection, RoomState, initial, set_connection, mark_chat_read, reset, apply_all,
}
use youtube_rooms.Socket
use youtube_rooms.Socket.{RoomSocket, connect, close}

-- The query for the room's id. A query that fails to be repeated is an error that keeps its data.
pub data Lookup : Type 0 where
  is_pending : Lookup
  is_error : Option ℕ → Lookup
  found : ℕ → Lookup

pub data Panel : Type 0 where
  chat queue people settings : Panel

-- `roomId`
abbrev pub room_id : SessionState → Lookup → Option ℕ
room_id (authenticated user) (found id) = some id
room_id (authenticated user) (is_error kept) = kept
room_id _ _ = none

-- The state of RoomShell, the store, and the sockets of the rooms that were left, newest first.
pub record RoomShell : Type 0 where
  pub session : SessionState
  pub lookup : Lookup
  pub panel : Panel
  pub socket : Option RoomSocket
  pub left : List RoomSocket
  pub store : RoomState

unfoldable pub blank : RoomShell
unfolding initial
blank = record {
  session = loading;
  lookup = is_pending;
  panel = chat;
  socket = none;
  left = [];
  store = initial;
}

-- The listeners: each state that a socket has told since goes to the store.
abbrev pub told : List Connection → RoomState → RoomState
told [] store = store
told (c ∷ cs) store = told cs (set_connection c store)

-- What a socket told between two of its states goes to the store by the two listeners; they write
-- different fields, so the order of the two lists does not matter.
unfoldable pub listen : RoomSocket → RoomSocket → RoomState → RoomState
listen before after store =
    told (drop (length before.states) after.states)
      (apply_all (drop (length before.delivered) after.delivered) store)

-- The effect on the room's id: its cleanup, which takes the listeners away first, and its body.
unfoldable pub leave : RoomShell → RoomShell
leave s = elim s.socket [
  | none ↦ s
  | some old ↦ record s { socket = none; left = close old ∷ s.left; store = reset s.store }
]

unfoldable pub join : RoomShell → RoomShell
join s = record s {
  socket = some (connect Socket.new);
  store = listen Socket.new (connect Socket.new) s.store;
}

abbrev pub same_id : Option ℕ → Option ℕ → Bool
same_id none none = true
same_id (some a) (some b) = a == b
same_id _ _ = false

-- A render with another session or another answer of the query.
unfoldable pub render : SessionState → Lookup → RoomShell → RoomShell
render session lookup s =
    let next = record s { session = session; lookup = lookup } in
    if same_id (room_id s.session s.lookup) (room_id session lookup)
    then next
    else if is_some (room_id session lookup)
    then join (leave next)
    else leave next

-- The effect on the panel and the unread count.
abbrev pub is_chat : Panel → Bool
is_chat chat = true
is_chat _ = false

unfoldable pub read : RoomShell → RoomShell
read s =
    if is_chat s.panel && ltb 0 s.store.unread_chat
    then record s { store = mark_chat_read s.store }
    else s

-- What is on the screen.
pub data Screen : Type 0 where
  spinner not_found join_gate room_screen : Screen
  removed : Bool → Screen

abbrev pub room_or_removed : Option KickReason → Screen
room_or_removed none = room_screen
room_or_removed (some room_closed) = removed true
room_or_removed (some _) = removed false

unfoldable pub screen : RoomShell → Screen
screen s = elim s.lookup [
  | is_pending ↦ spinner
  | is_error kept ↦ not_found
  | found id ↦ (elim s.session [
    | loading ↦ spinner
    | anonymous ↦ join_gate
    | authenticated user ↦ room_or_removed s.store.kicked
  ])
]

-- What happens: a render, a panel that is picked, an event of the present socket, and one of a socket
-- that was left, by its place.
pub data Event : Type 0 where
  renders : SessionState → Lookup → Event
  shows : Panel → Event
  hears : Socket.Event → Event
  left_hears : ℕ → Socket.Event → Event

abbrev pub step_nth : ℕ → Socket.Event → List RoomSocket → List RoomSocket
step_nth n e [] = []
step_nth n e (s ∷ ss) =
    let rest = step_nth (n - 1) e ss in if n == 0 then Socket.step s e ∷ ss else s ∷ rest

abbrev pub hear_on : Option RoomSocket → Socket.Event → RoomShell → RoomShell
hear_on none e s = s
hear_on (some old) e s = record s {
  socket = some (Socket.step old e);
  store = listen old (Socket.step old e) s.store;
}

unfoldable pub hear : Socket.Event → RoomShell → RoomShell
hear e s = hear_on s.socket e s

unfoldable pub step : RoomShell → Event → RoomShell
step s (renders session lookup) = read (render session lookup s)
step s (shows panel) = read (record s { panel = panel })
step s (hears e) = read (hear e s)
step s (left_hears n e) = record s { left = step_nth n e s.left }

unfoldable pub run : RoomShell → List Event → RoomShell
run s [] = s
run s (e ∷ es) = run (step s e) es
