-- ===== src/Shell/Wired.antt =====
-- The connection that apps/web/src/components/room/room-shell.tsx shows, against that of its socket.
use youtube_rooms.Prelude.{
  ℕ, ◌≡◌, ◌⊎◌, refl, sym, ◌∙◌, ap, Bool, Option, none, some, List, [], ◌∷◌, ◌++◌, length, drop,
  arith, inl, inr,
}
use youtube_rooms.Protocol.Client.{ClientMessage}
use youtube_rooms.Protocol.Server.{ServerMessage}
use youtube_rooms.Store.{
  Connection, RoomState, idle, initial, set_connection, mark_chat_read, reset, apply, apply_all,
}
use youtube_rooms.Socket
use youtube_rooms.Socket.{
  RoomSocket, connect, close, send, send_all, flush_outbox, begin_probing, set_state,
  teardown_probing, schedule_reconnect, probe, ticket_came, ticket_failed, on_open, on_message,
  handle, deliver, on_close, reconnect, on_orphan_open, on_orphan_message, on_orphan_close,
}
use youtube_rooms.Session.{SessionState}
use youtube_rooms.Shell.{
  RoomShell, Lookup, listen, leave, join, render, read, hear_on, hear, Event, step, run,
}

-- A socket tells a state exactly when it enters it.
Tells : RoomSocket → RoomSocket → Type 0
Tells s t = ((t.states ≡ s.states) × (t.state ≡ s.state)) ⊎ (t.states ≡ s.states ++ t.state ∷ [])

-- Neither the state nor what was told of it is changed.
abbrev pub Quiet : RoomSocket → RoomSocket → Type 0
Quiet s t = (t.states ≡ s.states) × (t.state ≡ s.state)

send-Quiet : (m : ClientMessage) (s : RoomSocket) → Quiet s (send m s)
unfolding send
send-Quiet m s = ground arith

send_all-Quiet : (ms : List ClientMessage) (s : RoomSocket) → Quiet s (send_all ms s)
unfolding send_all
send_all-Quiet [] s = (refl, refl)
send_all-Quiet (m ∷ ms) s = ground (arith, send-Quiet m s, send_all-Quiet ms (send m s))

flush_outbox-Quiet : (s : RoomSocket) → Quiet s (flush_outbox s)
unfolding flush_outbox
flush_outbox-Quiet s = ground (arith, send_all-Quiet s.outbox (record s { outbox = [] }))

begin_probing-Quiet :
    (visible : Bool) (now : ℕ) (s : RoomSocket) → Quiet s (begin_probing visible now s)
unfolding begin_probing teardown_probing
begin_probing-Quiet visible now s = grind (arith, send-Quiet)

handle-Tells :
    (m : ServerMessage) (visible : Bool) (now : ℕ) (s : RoomSocket)
    → Tells s (handle m visible now s)
unfolding Tells handle deliver set_state
handle-Tells (ServerMessage.ready r) visible now s =
    grind (arith, flush_outbox-Quiet, begin_probing-Quiet)
handle-Tells m visible now s = ground arith

probe-Quiet : (s : RoomSocket) (visible : Bool) (now : ℕ) → Quiet s (probe s.prober visible now s)
probe-Quiet s visible now = grind (arith, send-Quiet)

step-Tells : (s : RoomSocket) (e : Socket.Event) → Tells s (Socket.step s e)
unfolding Tells Socket.step connect ticket_came ticket_failed schedule_reconnect on_open on_message
    on_close reconnect close set_state teardown_probing on_orphan_open on_orphan_message
    on_orphan_close
step-Tells s (Socket.receives (some m) visible now) = ground (arith, handle-Tells m visible now s)
step-Tells s (Socket.orphan_receives k (some m) visible now) =
    ground (arith, handle-Tells m visible now s)
step-Tells s (Socket.probes visible now) = inl (probe-Quiet s visible now)
step-Tells s (Socket.sends m) = inl (send-Quiet m s)
step-Tells s e = ground arith

drop-length : (xs : List Connection) → drop (length xs) xs ≡ []
drop-length [] = refl
drop-length (x ∷ xs) = drop-length xs

drop-append : (xs ys : List Connection) → drop (length xs) (xs ++ ys) ≡ ys
drop-append [] ys = refl
drop-append (x ∷ xs) ys = drop-append xs ys

apply-connection : (m : ServerMessage) (s : RoomState) → (apply m s).connection ≡ s.connection
unfolding apply
apply-connection m s = ground arith

apply_all-connection :
    (ms : List ServerMessage) (s : RoomState) → (apply_all ms s).connection ≡ s.connection
unfolding apply_all
apply_all-connection [] s = refl
apply_all-connection (m ∷ ms) s = apply_all-connection ms (apply m s) ∙ apply-connection m s

listen-connection :
    (s t : RoomSocket) (store : RoomState)
    → Tells s t
    → store.connection ≡ s.state
    → (listen s t store).connection ≡ t.state
unfolding listen Tells set_connection
listen-connection s t store (inl (same, still)) h =
    rw (same, drop-length s.states)
      (apply_all-connection (drop (length s.delivered) t.delivered) store ∙ h ∙ sym still)
listen-connection s t store (inr more) h = rw (more, drop-append s.states) refl

-- The state of the present socket, or that of a store at rest.
abbrev pub state_of : Option RoomSocket → Connection
state_of none = idle
state_of (some socket) = socket.state

abbrev pub Wired : RoomShell → Type 0
Wired s = s.store.connection ≡ state_of s.socket

read-Wired : (s : RoomShell) → Wired s → Wired (read s)
unfolding read mark_chat_read
read-Wired s h = ground arith

leave-Wired : (s : RoomShell) → Wired s → Wired (leave s)
unfolding leave reset initial
leave-Wired s h = ground arith

leave-socket : (s : RoomShell) → (leave s).socket ≡ none
unfolding leave
leave-socket s = ground arith

join-Wired : (s : RoomShell) → Wired s → s.socket ≡ none → Wired (join s)
unfolding join Socket.new connect Socket.step
join-Wired s h n =
    listen-connection Socket.new (connect Socket.new) s.store
      (step-Tells Socket.new Socket.connects) (ground arith)

render-Wired :
    (session : SessionState) (lookup : Lookup) (s : RoomShell)
    → Wired s
    → Wired (render session lookup s)
unfolding render
render-Wired session lookup s h =
    let next = record s { session = session; lookup = lookup } in
    ground
      (arith, leave-Wired next h, join-Wired (leave next) (leave-Wired next h) (leave-socket next))

hear_on-Wired :
    (o : Option RoomSocket) (e : Socket.Event) (s : RoomShell)
    → s.socket ≡ o
    → Wired s
    → Wired (hear_on o e s)
hear_on-Wired none e s o h = h
hear_on-Wired (some old) e s o h =
    listen-connection old (Socket.step old e) s.store (step-Tells old e) (h ∙ ap state_of o)

hear-Wired : (e : Socket.Event) (s : RoomShell) → Wired s → Wired (hear e s)
unfolding hear
hear-Wired e s h = hear_on-Wired s.socket e s refl h

step-Wired : (s : RoomShell) (e : Event) → Wired s → Wired (step s e)
unfolding step
step-Wired s (Event.renders session lookup) h =
    read-Wired (render session lookup s) (render-Wired session lookup s h)
step-Wired s (Event.shows panel) h = read-Wired (record s { panel = panel }) h
step-Wired s (Event.hears e) h = read-Wired (hear e s) (hear-Wired e s h)
step-Wired s (Event.left_hears n e) h = h

-- Whatever happens to the session, to the room and to the sockets, those of rooms that were left
-- included, the connection that the room shows is the state of its present socket; and it is that of
-- a store at rest while there is none.
pub run-Wired : (s : RoomShell) (es : List Event) → Wired s → Wired (run s es)
unfolding run
run-Wired s [] h = h
run-Wired s (e ∷ es) h = run-Wired (step s e) es (step-Wired s e h)
