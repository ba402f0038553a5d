-- ===== src/Tests/Sockets.antt =====
-- The connection to the room.
use youtube_rooms.Prelude.{◌≡◌, refl, true, some, List, [], ◌∷◌, ◌++◌, arith}
use youtube_rooms.Prelude.Int.{pos}
use youtube_rooms.Protocol.Client.{authenticate, ping, skip_vote, voice_join}
use youtube_rooms.Protocol.Server.{ServerMessage}
use youtube_rooms.Store.{open_state}
use youtube_rooms.Socket.{
  RoomSocket, Event, connects, opens, reconnects, gets_ticket, drops, receives, sends, new, run,
  connect, close, step, orphan_receives, orphan_drops, ticket_came, on_open, on_message,
  on_orphan_message, handle, flush_outbox, send_all, begin_probing, send,
}
use youtube_rooms.Socket.Frames.{IsGreeted, AreGreeted, run-IsGreeted}
use youtube_rooms.Socket.Outbox.{IsOutbox, run-IsOutbox}
use youtube_rooms.Socket.Replay.{open_with, run-rejoin}
use youtube_rooms.Socket.Closing.{IsLeft, run-close-IsLeft, run-close_pending}
use youtube_rooms.Tests.Fixtures.{snapshot}

-- connect() has asked for a ticket.
abbrev asking : RoomSocket
asking = connect new

abbrev joins : List Event
joins =
    connects
    ∷ gets_ticket 77
    ∷ opens
    ∷ receives (some (ServerMessage.ready snapshot)) true 1000
    ∷ []

-- A second connect() while the first WebSocket authenticates: the server's answer comes on the first.
abbrev doubles : List Event
doubles =
    connects
    ∷ gets_ticket 77
    ∷ opens
    ∷ connects
    ∷ gets_ticket 78
    ∷ orphan_receives 0 (some (ServerMessage.ready snapshot)) true 1000
    ∷ opens
    ∷ []

run-IsGreeted_example : IsGreeted (run new doubles).ws × AreGreeted (run new doubles).orphans
run-IsGreeted_example = run-IsGreeted doubles

-- The first WebSocket outlives close().
orphan_opens_again :
    (run
      (close (run new (connects ∷ gets_ticket 77 ∷ opens ∷ connects ∷ gets_ticket 78 ∷ [])))
      (orphan_receives 0 (some (ServerMessage.ready snapshot)) true 1000 ∷ [])).state
    ≡ open_state
unfolding run step new close connect ticket_came on_open on_orphan_message handle flush_outbox
    send_all begin_probing send
orphan_opens_again = refl

run-IsOutbox_example : IsOutbox (run new (joins ++ drops 5 ∷ sends voice_join ∷ [])).outbox
run-IsOutbox_example = run-IsOutbox (joins ++ drops 5 ∷ sends voice_join ∷ [])

run-rejoin_example :
    (run asking (
      sends voice_join
      ∷ sends (skip_vote true)
      ∷ gets_ticket 77
      ∷ opens
      ∷ receives (some (ServerMessage.ready snapshot)) true 1000
      ∷ [])).ws
    ≡ some (open_with 77 (authenticate 77 ∷ ping (pos 1000) ∷ voice_join ∷ skip_vote true ∷ []))
unfolding connect new
run-rejoin_example =
    (run-rejoin (voice_join ∷ skip_vote true ∷ []) asking 77 snapshot true 1000 refl (omega arith)
      (ground arith) (omega arith)).0

-- The room is left over an open WebSocket, whose onclose comes later.
run-close-IsLeft_example :
    IsLeft
      (run (close (run new joins)) (opens ∷ orphan_drops 0 3 ∷ reconnects ∷ sends voice_join ∷ []))
unfolding run step new connect ticket_came on_open on_message handle flush_outbox send_all
    begin_probing send
run-close-IsLeft_example =
    run-close-IsLeft (run new joins) (opens ∷ orphan_drops 0 3 ∷ reconnects ∷ sends voice_join ∷ [])
      refl refl (tt, (tt, (tt, (tt, tt))))

-- The room is left while the first ticket is on its way.
run-close_pending_example :
    (run (close asking) (
      gets_ticket 77 ∷ opens ∷ receives (some (ServerMessage.ready snapshot)) true 1000 ∷ [])).state
    ≡ open_state
unfolding connect new
run-close_pending_example = (run-close_pending asking 77 5 snapshot true 1000 (omega arith)).0
