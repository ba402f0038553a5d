-- ===== src/Socket.antt =====
-- apps/web/src/realtime/socket.ts: the connection of one browser to one room.
--
-- The methods, the handlers of the WebSocket and the timers are the events of a state machine. A
-- call of connect() is split where it waits for its ticket: `pending` counts the calls that wait.
--
-- A WebSocket that #ws stops referring to while it lives, since another call of connect() made one or
-- another WebSocket's onclose cleared #ws, keeps its handlers: it is one of `orphans`. One that close()
-- closed has its onclose left, which is that of an orphan out of the list.
pub mod Frames
pub mod Outbox
pub mod Replay
pub mod Closing
use youtube_rooms.Prelude.{
  ℕ, suc, ◌+◌, ◌-◌, ◌*◌, ◌<◌, Bool, true, false, not, ◌||◌, ◌&&◌, Option, none, some, List, [], ◌∷◌,
  ◌++◌, ltb, ◌==◌, if◌then◌else◌, length, drop, get_elem?, set, erase_idx,
}
use youtube_rooms.Prelude.Int.{ℤ, pos, ◌*ℤ◌}
use youtube_rooms.Number.{num}
use youtube_rooms.Backoff.{backoff_delay}
use youtube_rooms.Clock.{ClockEstimator, add_sample, seed}
use youtube_rooms.Clock
use youtube_rooms.Clock.Probing.{Prober, tick, start_probing, stop}
use youtube_rooms.Protocol.Client.{ClientMessage, authenticate, ping, sync_report}
use youtube_rooms.Protocol.Server.{ServerMessage, Ready}
use youtube_rooms.Store.{
  Connection, idle, connecting, authenticating, open_state, reconnecting, closed,
}

-- A WebSocket that is connecting or open, the ticket that its handler holds, and what was sent.
pub record Ws : Type 0 where
  pub is_open : Bool
  pub ticket : ℕ
  pub frames : List ClientMessage

-- The fields of RoomSocket. `states` and `delivered` are what the listeners were told, oldest
-- first.
pub record RoomSocket : Type 0 where
  pub clock : ClockEstimator
  pub ws : Option Ws
  pub orphans : List Ws
  pub state : Connection
  pub attempt : ℕ
  pub prober : Option Prober
  pub reconnect_timer : Option ℕ
  pub intentionally_closed : Bool
  pub outbox : List ClientMessage
  pub pending : ℕ
  pub states : List Connection
  pub delivered : List ServerMessage

-- The constructor.
unfoldable pub new : RoomSocket
new = record {
  clock = Clock.new;
  ws = none;
  orphans = [];
  state = idle;
  attempt = 0;
  prober = none;
  reconnect_timer = none;
  intentionally_closed = false;
  outbox = [];
  pending = 0;
  states = [];
  delivered = [];
}

-- #setState
unfoldable pub set_state : Connection → RoomSocket → RoomSocket
set_state state s = record s { state = state; states = s.states ++ state ∷ [] }

-- The messages that are dropped rather than kept while the socket is down.
abbrev pub is_sample : ClientMessage → Bool
is_sample (ping sent) = true
is_sample (sync_report drift position buffering) = true
is_sample _ = false

-- push, then shift where the outbox is over 32.
abbrev pub push_out : List ClientMessage → ClientMessage → List ClientMessage
push_out outbox m =
    let pushed = outbox ++ m ∷ [] in if ltb 32 (length pushed) then drop 1 pushed else pushed

abbrev pub keep : ClientMessage → RoomSocket → RoomSocket
keep m s = if is_sample m then s else record s { outbox = push_out s.outbox m }

send_on : Option Ws → ClientMessage → RoomSocket → RoomSocket
send_on none m s = keep m s
send_on (some ws) m s =
    if ws.is_open
    then record s { ws = some (record ws { frames = ws.frames ++ m ∷ [] }) }
    else keep m s

-- send
unfoldable pub send : ClientMessage → RoomSocket → RoomSocket
unfolding send_on
send m s = send_on s.ws m s

unfoldable pub send_all : List ClientMessage → RoomSocket → RoomSocket
send_all [] s = s
send_all (m ∷ ms) s = send_all ms (send m s)

-- #flushOutbox
unfoldable pub flush_outbox : RoomSocket → RoomSocket
flush_outbox s = send_all s.outbox (record s { outbox = [] })

-- #teardownProbing
unfoldable pub teardown_probing : RoomSocket → RoomSocket
teardown_probing s = record s { prober = none }

-- #startProbing, whose first call of tick sends a probe from a visible tab.
unfoldable pub begin_probing : Bool → ℕ → RoomSocket → RoomSocket
unfolding teardown_probing
begin_probing visible now s =
    let sent = if visible then send (ping (pos now)) (teardown_probing s) else teardown_probing s in
    record sent { prober = some (start_probing visible) }

-- A timeout of the prober.
abbrev pub probe : Option Prober → Bool → ℕ → RoomSocket → RoomSocket
probe none visible now s = s
probe (some p) visible now s =
    if p.stopped
    then s
    else let sent = if visible then send (ping (pos now)) s else s in
      record sent { prober = some (tick visible p) }

-- #scheduleReconnect
unfoldable pub schedule_reconnect : ℕ → RoomSocket → RoomSocket
unfolding set_state
schedule_reconnect random s =
    let told = set_state reconnecting s in
    record told {
      clock = Clock.reset told.clock;
      attempt = told.attempt + 1;
      reconnect_timer = some (backoff_delay random told.attempt);
    }

abbrev pub is_busy : Connection → Bool
is_busy connecting = true
is_busy open_state = true
is_busy _ = false

-- connect, up to its wait for the ticket.
unfoldable pub connect : RoomSocket → RoomSocket
unfolding set_state
connect s =
    if is_busy s.state
    then s
    else let asked =
        set_state (if s.attempt == 0 then connecting else reconnecting)
          (record s { intentionally_closed = false }) in
      record asked { pending = asked.pending + 1 }

-- The WebSockets that live on once #ws refers to another one, or to none.
abbrev pub orphaned : Option Ws → List Ws → List Ws
orphaned none orphans = orphans
orphaned (some ws) orphans = ws ∷ orphans

-- connect, behind the wait: a ticket came.
unfoldable pub ticket_came : ℕ → RoomSocket → RoomSocket
ticket_came ticket s =
    if ltb 0 s.pending
    then record s {
      pending = s.pending - 1;
      ws = some (record { is_open = false; ticket = ticket; frames = [] });
      orphans = orphaned s.ws s.orphans;
    }
    else s

-- connect, behind the wait: the request for a ticket failed.
unfoldable pub ticket_failed : ℕ → RoomSocket → RoomSocket
ticket_failed random s =
    if ltb 0 s.pending then schedule_reconnect random (record s { pending = s.pending - 1 }) else s

-- What onopen does to its own WebSocket: the ticket is the first frame.
abbrev pub opened : Ws → Ws
opened ws = record ws { is_open = true; frames = ws.frames ++ authenticate ws.ticket ∷ [] }

open_ws : Option Ws → RoomSocket → RoomSocket
unfolding set_state
open_ws none s = s
open_ws (some ws) s =
    if ws.is_open then s else set_state authenticating (record s { ws = some (opened ws) })

-- onopen
unfoldable pub on_open : RoomSocket → RoomSocket
unfolding open_ws
on_open s = open_ws s.ws s

open_orphan : Option Ws → ℕ → RoomSocket → RoomSocket
unfolding set_state
open_orphan none k s = s
open_orphan (some ws) k s =
    if ws.is_open
    then s
    else set_state authenticating (record s { orphans = set s.orphans k (opened ws) })

-- onopen of an orphan
unfoldable pub on_orphan_open : ℕ → RoomSocket → RoomSocket
unfolding open_orphan
on_orphan_open k s = open_orphan (get_elem? s.orphans k) k s

-- The listeners of messages.
unfoldable pub deliver : ServerMessage → RoomSocket → RoomSocket
deliver m s = record s { delivered = s.delivered ++ m ∷ [] }

-- #handleRaw for a frame that parses; a snapshot's clock reading is in milliseconds.
unfoldable pub handle : ServerMessage → Bool → ℕ → RoomSocket → RoomSocket
unfolding deliver set_state
handle (ServerMessage.pong client_sent server_time) visible now s = record s {
  clock = add_sample s.clock now (num client_sent) (num server_time);
}
handle (ServerMessage.ready r) visible now s =
    let seeded = record s { attempt = 0; clock = seed s.clock now (r.server_time *ℤ 1000) } in
    deliver (ServerMessage.ready r)
      (flush_outbox (begin_probing visible now (set_state open_state seeded)))
handle m visible now s = deliver m s

abbrev pub is_receiving : Option Ws → Bool
is_receiving none = false
is_receiving (some ws) = ws.is_open

-- onmessage; a frame that does not parse, or is no message of the schema, is dropped.
unfoldable pub on_message : Option ServerMessage → Bool → ℕ → RoomSocket → RoomSocket
on_message none visible now s = s
on_message (some m) visible now s = if is_receiving s.ws then handle m visible now s else s

-- onmessage of an orphan: what it leads to is sent on #ws.
unfoldable pub on_orphan_message : ℕ → Option ServerMessage → Bool → ℕ → RoomSocket → RoomSocket
on_orphan_message k none visible now s = s
on_orphan_message k (some m) visible now s =
    if is_receiving (get_elem? s.orphans k) then handle m visible now s else s

-- onclose
unfoldable pub on_close : ℕ → RoomSocket → RoomSocket
unfolding teardown_probing set_state schedule_reconnect
on_close random s =
    let down = record (teardown_probing s) { ws = none } in
    if down.intentionally_closed then set_state closed down else schedule_reconnect random down

-- onclose of an orphan, or of a WebSocket that close() closed: #ws is cleared all the same.
unfoldable pub on_orphan_close : ℕ → ℕ → RoomSocket → RoomSocket
unfolding on_close
on_orphan_close k random s =
    on_close random (record s { orphans = orphaned s.ws (erase_idx s.orphans k) })

-- The timeout that #scheduleReconnect armed.
unfoldable pub reconnect : RoomSocket → RoomSocket
unfolding connect
reconnect s = elim s.reconnect_timer [
  | none ↦ s
  | some delay ↦ connect (record s { reconnect_timer = none })
]

-- close
unfoldable pub close : RoomSocket → RoomSocket
unfolding teardown_probing set_state
close s = set_state closed (record (teardown_probing (record s { intentionally_closed = true })) {
  reconnect_timer = none;
  ws = none;
})

pub data Event : Type 0 where
  connects opens closes reconnects : Event
  gets_ticket fails_ticket drops : ℕ → Event
  receives : Option ServerMessage → Bool → ℕ → Event
  orphan_opens : ℕ → Event
  orphan_receives : ℕ → Option ServerMessage → Bool → ℕ → Event
  orphan_drops : ℕ → ℕ → Event
  probes : Bool → ℕ → Event
  sends : ClientMessage → Event

unfoldable pub step : RoomSocket → Event → RoomSocket
step s connects = connect s
step s opens = on_open s
step s closes = close s
step s reconnects = reconnect s
step s (gets_ticket ticket) = ticket_came ticket s
step s (fails_ticket random) = ticket_failed random s
step s (drops random) = on_close random s
step s (receives m visible now) = on_message m visible now s
step s (orphan_opens k) = on_orphan_open k s
step s (orphan_receives k m visible now) = on_orphan_message k m visible now s
step s (orphan_drops k random) = on_orphan_close k random s
step s (probes visible now) = probe s.prober visible now s
step s (sends m) = send m s

unfoldable pub run : RoomSocket → List Event → RoomSocket
run s [] = s
run s (e ∷ es) = run (step s e) es
