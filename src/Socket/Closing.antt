-- ===== src/Socket/Closing.antt =====
-- Leaving a room: close() of apps/web/src/realtime/socket.ts.
use youtube_rooms.Prelude.{ℕ, ◌<◌, ◌≡◌, Bool, true, none, some, List, [], ◌∷◌, All, arith, lt→ltb}
use youtube_rooms.Backoff.{backoff_delay}
use youtube_rooms.Protocol.Server.{ServerMessage, Ready}
use youtube_rooms.Store.{open_state, closed, reconnecting}
use youtube_rooms.Socket.{
  RoomSocket, Event, connects, opens, gets_ticket, fails_ticket, receives, send, send_on,
  schedule_reconnect, connect, ticket_came, ticket_failed, on_open, open_ws, on_message, on_close,
  reconnect, close, step, run, orphan_receives, on_orphan_open, open_orphan, on_orphan_message,
  on_orphan_close,
}
use youtube_rooms.Socket.Replay.{rejoin}

-- Nothing is connected, nothing is awaited, and no timer runs.
pub record IsLeft (s : RoomSocket) : Type 0 where
  pub state : s.state ≡ closed
  pub gone : s.ws ≡ none
  pub alone : s.orphans ≡ []
  pub settled : s.pending ≡ 0
  pub no_retry : s.reconnect_timer ≡ none
  pub no_probe : s.prober ≡ none
  pub meant : s.intentionally_closed ≡ true

abbrev pub IsOther : Event → Type 0
IsOther connects = ⊥
IsOther _ = Unit

step-IsLeft : (s : RoomSocket) (e : Event) → IsOther e → IsLeft s → IsLeft (step s e)
unfolding step connect ticket_came ticket_failed on_open open_ws on_message on_close reconnect close
    send send_on on_orphan_open open_orphan on_orphan_message on_orphan_close
step-IsLeft s connects o h = absurd o
step-IsLeft s (receives none visible now) o h = h
step-IsLeft s (orphan_receives k none visible now) o h = h
step-IsLeft s _ o h = ground arith

run-IsLeft : (es : List Event) (s : RoomSocket) → All IsOther es → IsLeft s → IsLeft (run s es)
unfolding run
run-IsLeft [] s o h = h
run-IsLeft (e ∷ es) s o h = run-IsLeft es (step s e) o.1 (step-IsLeft s e o.0 h)

close-IsLeft : (s : RoomSocket) → s.pending ≡ 0 → s.orphans ≡ [] → IsLeft (close s)
unfolding close
close-IsLeft s h a = ground arith

-- A socket that is closed while no ticket is awaited, and no WebSocket lives on to which it no longer
-- refers, stays closed, whatever the browser, the timers and the rest of the page still do, until
-- connect() is called again.
pub run-close-IsLeft :
    (s : RoomSocket) (es : List Event)
    → s.pending ≡ 0
    → s.orphans ≡ []
    → All IsOther es
    → IsLeft (run (close s) es)
run-close-IsLeft s es h a o = run-IsLeft es (close s) o (close-IsLeft s h a)

-- A socket that is closed while a ticket is awaited is not closed: the ticket opens a connection
-- that authenticates and joins the room, and a failure to get it starts the endless retries.
pub run-close_pending :
    (s : RoomSocket) (ticket random : ℕ) (r : Ready) (visible : Bool) (now : ℕ)
    → 0 < s.pending
    → ((run (close s) (
          gets_ticket ticket
          ∷ opens
          ∷ receives (some (ServerMessage.ready r)) visible now
          ∷ [])).state
        ≡ open_state)
      × ((run (close s) (fails_ticket random ∷ [])).state ≡ reconnecting)
      × ((run (close s) (fails_ticket random ∷ [])).reconnect_timer
          ≡ some (backoff_delay random s.attempt))
unfolding run step close ticket_failed schedule_reconnect
run-close_pending s ticket random r visible now p = (
  (rejoin s.outbox (close s) ticket r visible now p).2,
  rw (lt→ltb 0 s.pending p),
  rw (lt→ltb 0 s.pending p),
)
