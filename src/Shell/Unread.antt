-- ===== src/Shell/Unread.antt =====
-- The unread count and the life of the socket in apps/web/src/components/room/room-shell.tsx.
use youtube_rooms.Prelude.{◌≡◌, true, List, [], ◌∷◌, is_some, arith}
use youtube_rooms.Session.{SessionState}
use youtube_rooms.Store.{mark_chat_read}
use youtube_rooms.Shell.{
  RoomShell, Lookup, room_id, leave, join, render, is_chat, read, hear, Event, step, run,
}

-- A socket is there exactly for a viewer who is signed in and a room whose id was found, and while
-- the chat is in front nothing in it is unread.
pub record Inv (s : RoomShell) : Type 0 where
  pub owned : is_some s.socket ≡ is_some (room_id s.session s.lookup)
  pub seen : is_chat s.panel ≡ true → s.store.unread_chat ≡ 0

read-seen : (s : RoomShell) → is_chat s.panel ≡ true → (read s).store.unread_chat ≡ 0
unfolding read mark_chat_read
read-seen s h = ground arith

read-same :
    (s : RoomShell)
    → ((read s).socket ≡ s.socket)
      × ((read s).panel ≡ s.panel)
      × ((read s).session ≡ s.session)
      × ((read s).lookup ≡ s.lookup)
unfolding read
read-same s = ground arith

read-Inv : (s : RoomShell) → is_some s.socket ≡ is_some (room_id s.session s.lookup) → Inv (read s)
read-Inv s h = ground (arith, read-same s, read-seen s)

render-owned :
    (session : SessionState) (lookup : Lookup) (s : RoomShell)
    → is_some s.socket ≡ is_some (room_id s.session s.lookup)
    → is_some (render session lookup s).socket
      ≡ is_some (room_id (render session lookup s).session (render session lookup s).lookup)
unfolding render leave join
render-owned session lookup s h = ground arith

step-Inv : (s : RoomShell) (e : Event) → Inv s → Inv (step s e)
unfolding step hear
step-Inv s (Event.renders session lookup) h =
    read-Inv (render session lookup s) (render-owned session lookup s h.owned)
step-Inv s (Event.shows panel) h = read-Inv (record s { panel = panel }) h.owned
step-Inv s (Event.hears e) h = read-Inv (hear e s) (ground arith)
step-Inv s (Event.left_hears n e) h = ground arith

-- Through any renders, panels and events of the sockets, the shell holds a socket exactly while the
-- viewer is signed in and the id of the room was found, so no visitor without a name is connected;
-- and while the chat is in front its unread count is 0.
pub run-owned : (s : RoomShell) (es : List Event) → Inv s → Inv (run s es)
unfolding run
run-owned s [] h = h
run-owned s (e ∷ es) h = run-owned (step s e) es (step-Inv s e h)
