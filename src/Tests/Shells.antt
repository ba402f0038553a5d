-- ===== src/Tests/Shells.antt =====
-- The shell of a room, and the theme.
use youtube_rooms.Prelude.{◌≡◌, refl, true, none, some, List, [], ◌∷◌}
use youtube_rooms.Protocol.Server.{ServerMessage}
use youtube_rooms.Store.{initial}
use youtube_rooms.Socket
use youtube_rooms.Session.{authenticated}
use youtube_rooms.Shell
use youtube_rooms.Shell.{Event, found}
use youtube_rooms.Shell.Wired.{state_of, run-Wired}
use youtube_rooms.Tests.Fixtures.{user, chat, snapshot}

abbrev visits : List Event
visits =
    Shell.renders (authenticated (user 1)) (found 5)
    ∷ Shell.hears (Socket.gets_ticket 9)
    ∷ Shell.hears Socket.opens
    ∷ Shell.hears (Socket.receives (some (ServerMessage.ready snapshot)) true 7)
    ∷ Shell.shows Shell.queue
    ∷ Shell.hears (Socket.receives (some (ServerMessage.chat_message (chat 4 2 none))) true 8)
    ∷ Shell.shows Shell.chat
    ∷ []

run-Wired_example :
    (Shell.run Shell.blank visits).store.connection ≡ state_of (Shell.run Shell.blank visits).socket
unfolding Shell.blank initial
run-Wired_example = run-Wired Shell.blank visits refl
