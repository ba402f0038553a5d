-- ===== src/Socket/Frames.antt =====
-- What goes over a WebSocket of apps/web/src/realtime/socket.ts, and in which order.
use youtube_rooms.Prelude.{
  ℕ, ◌≡◌, refl, sym, subst, Bool, true, false, Option, none, some, List, [], ◌∷◌, ◌++◌, arith,
  Bool-cases, inl, inr, ◌∙◌, All, All-set, All-erase_idx, All-get_elem?, get_elem?, erase_idx,
}
use youtube_rooms.Prelude.Int.{pos}
use youtube_rooms.Clock.Probing.{Prober}
use youtube_rooms.Protocol.Client.{ClientMessage, authenticate, ping}
use youtube_rooms.Protocol.Server.{ServerMessage}
use youtube_rooms.Socket.{
  Ws, RoomSocket, Event, opens, receives, probes, sends, new, send, send_on, send_all, flush_outbox,
  begin_probing, teardown_probing, probe, schedule_reconnect, connect, ticket_came, ticket_failed,
  on_open, open_ws, handle, on_message, on_close, reconnect, close, step, run, deliver, set_state,
  orphan_opens, orphan_receives, orphan_drops, opened, open_orphan, on_orphan_open,
  on_orphan_message, on_orphan_close, orphaned, gets_ticket,
}

-- Nothing was sent on a socket that is not open, and on an open one the ticket went first.
abbrev pub Greets : Bool → ℕ → List ClientMessage → Type 0
Greets false ticket frames = frames ≡ []
Greets true ticket [] = ⊥
Greets true ticket (m ∷ ms) = m ≡ authenticate ticket

abbrev pub IsGreeted : Option Ws → Type 0
IsGreeted none = Unit
IsGreeted (some ws) = Greets ws.is_open ws.ticket ws.frames

Greets-append :
    (b : Bool) (ticket : ℕ) (ms : List ClientMessage) (m : ClientMessage)
    → b ≡ true
    → Greets b ticket ms
    → Greets b ticket (ms ++ m ∷ [])
Greets-append true ticket [] m e h = absurd h
Greets-append true ticket (n ∷ ms) m e h = h
Greets-append false ticket ms m e h = cc

send_on-IsGreeted :
    (w : Option Ws) (m : ClientMessage) (s : RoomSocket)
    → s.ws ≡ w
    → IsGreeted w
    → IsGreeted (send_on w m s).ws
unfolding send_on
send_on-IsGreeted none m s e h = ground arith
send_on-IsGreeted (some ws) m s e h = ground (arith, Greets-append ws.is_open ws.ticket ws.frames m)

send-IsGreeted : (m : ClientMessage) (s : RoomSocket) → IsGreeted s.ws → IsGreeted (send m s).ws
unfolding send
send-IsGreeted m s h = send_on-IsGreeted s.ws m s refl h

send_all-IsGreeted :
    (ms : List ClientMessage) (s : RoomSocket) → IsGreeted s.ws → IsGreeted (send_all ms s).ws
unfolding send_all
send_all-IsGreeted [] s h = h
send_all-IsGreeted (m ∷ ms) s h = send_all-IsGreeted ms (send m s) (send-IsGreeted m s h)

flush_outbox-IsGreeted : (s : RoomSocket) → IsGreeted s.ws → IsGreeted (flush_outbox s).ws
unfolding flush_outbox
flush_outbox-IsGreeted s h = send_all-IsGreeted s.outbox (record s { outbox = [] }) h

begin_probing-IsGreeted :
    (visible : Bool) (now : ℕ) (s : RoomSocket)
    → IsGreeted s.ws
    → IsGreeted (begin_probing visible now s).ws
unfolding begin_probing
begin_probing-IsGreeted true now s h = send-IsGreeted (ping (pos now)) (teardown_probing s) h
begin_probing-IsGreeted false now s h = h

probe-IsGreeted :
    (p : Option Prober) (visible : Bool) (now : ℕ) (s : RoomSocket)
    → IsGreeted s.ws
    → IsGreeted (probe p visible now s).ws
probe-IsGreeted none visible now s h = h
probe-IsGreeted (some p) visible now s h = ground (arith, send-IsGreeted (ping (pos now)) s h)

opened-IsGreeted :
    (ws : Ws) → ws.is_open ≡ false → IsGreeted (some ws) → IsGreeted (some (opened ws))
opened-IsGreeted ws c h = greeted (ws.frames) (subst (λ b. Greets b ws.ticket ws.frames) c h)
  where
    greeted :
        (fs : List ClientMessage)
        → fs ≡ []
        → Greets true ws.ticket (fs ++ authenticate ws.ticket ∷ [])
    greeted fs nothing = rw nothing refl

open_ws-IsGreeted :
    (w : Option Ws) (s : RoomSocket) → s.ws ≡ w → IsGreeted w → IsGreeted (open_ws w s).ws
unfolding open_ws
open_ws-IsGreeted none s e h = ground arith
open_ws-IsGreeted (some ws) s e h = elim (Bool-cases ws.is_open) [
  | inl o ↦ rw o (subst IsGreeted (sym e) h)
  | inr c ↦ rw c (opened-IsGreeted ws c h)
]

handle-IsGreeted :
    (m : ServerMessage) (visible : Bool) (now : ℕ) (s : RoomSocket)
    → IsGreeted s.ws
    → IsGreeted (handle m visible now s).ws
unfolding handle
handle-IsGreeted (ServerMessage.ready r) visible now s h =
    flush_outbox-IsGreeted _ (begin_probing-IsGreeted visible now _ h)
handle-IsGreeted (ServerMessage.pong client_sent server_time) visible now s h = h
handle-IsGreeted _ visible now s h = h

step-IsGreeted : (s : RoomSocket) (e : Event) → IsGreeted s.ws → IsGreeted (step s e).ws
unfolding step connect ticket_came ticket_failed on_open on_message on_close reconnect close
    schedule_reconnect on_orphan_open open_orphan on_orphan_message on_orphan_close
step-IsGreeted s (receives (some m) visible now) h =
    ground (arith, handle-IsGreeted m visible now s h)
step-IsGreeted s (orphan_receives k (some m) visible now) h =
    ground (arith, handle-IsGreeted m visible now s h)
step-IsGreeted s (probes visible now) h = probe-IsGreeted s.prober visible now s h
step-IsGreeted s (sends m) h = send-IsGreeted m s h
step-IsGreeted s opens h = open_ws-IsGreeted s.ws s refl h
step-IsGreeted s _ h = ground arith

-- What is sent goes over the present WebSocket.
send-orphans : (m : ClientMessage) (s : RoomSocket) → (send m s).orphans ≡ s.orphans
unfolding send send_on
send-orphans m s = ground arith

send_all-orphans : (ms : List ClientMessage) (s : RoomSocket) → (send_all ms s).orphans ≡ s.orphans
unfolding send_all
send_all-orphans [] s = refl
send_all-orphans (m ∷ ms) s = send_all-orphans ms (send m s) ∙ send-orphans m s

flush_outbox-orphans : (s : RoomSocket) → (flush_outbox s).orphans ≡ s.orphans
unfolding flush_outbox
flush_outbox-orphans s = send_all-orphans s.outbox (record s { outbox = [] })

begin_probing-orphans :
    (visible : Bool) (now : ℕ) (s : RoomSocket) → (begin_probing visible now s).orphans ≡ s.orphans
unfolding begin_probing teardown_probing
begin_probing-orphans visible now s = grind (arith, send-orphans)

handle-orphans :
    (m : ServerMessage) (visible : Bool) (now : ℕ) (s : RoomSocket)
    → (handle m visible now s).orphans ≡ s.orphans
unfolding handle deliver set_state
handle-orphans (ServerMessage.ready r) visible now s =
    grind (arith, flush_outbox-orphans, begin_probing-orphans)
handle-orphans m visible now s = ground arith

probe-orphans :
    (s : RoomSocket) (visible : Bool) (now : ℕ) → (probe s.prober visible now s).orphans ≡ s.orphans
probe-orphans s visible now = grind (arith, send-orphans)

-- Each WebSocket that lives on.
abbrev pub AreGreeted : List Ws → Type 0
AreGreeted orphans = All (λ (w : Ws). IsGreeted (some w)) orphans

orphaned-AreGreeted :
    (w : Option Ws) (orphans : List Ws)
    → IsGreeted w
    → AreGreeted orphans
    → AreGreeted (orphaned w orphans)
orphaned-AreGreeted none orphans h k = k
orphaned-AreGreeted (some w) orphans h k = (h, k)

open_orphan-AreGreeted :
    (w : Option Ws) (k : ℕ) (s : RoomSocket)
    → get_elem? s.orphans k ≡ w
    → AreGreeted s.orphans
    → AreGreeted (open_orphan w k s).orphans
unfolding open_orphan set_state
open_orphan-AreGreeted none k s e h = h
open_orphan-AreGreeted (some ws) k s e h = elim (Bool-cases ws.is_open) [
  | inl o ↦ rw o h
  | inr c ↦ rw c (
      All-set (λ (w : Ws). IsGreeted (some w)) s.orphans k (opened ws) h
        (opened-IsGreeted ws c (All-get_elem? (λ (w : Ws). IsGreeted (some w)) s.orphans k h e)))
]

on_orphan_close-AreGreeted :
    (k random : ℕ) (s : RoomSocket)
    → IsGreeted s.ws
    → AreGreeted s.orphans
    → AreGreeted (on_orphan_close k random s).orphans
unfolding on_orphan_close on_close teardown_probing set_state schedule_reconnect
on_orphan_close-AreGreeted k random s h o = ground (
  arith,
  orphaned-AreGreeted s.ws (erase_idx s.orphans k) h
      (All-erase_idx (λ (w : Ws). IsGreeted (some w)) s.orphans k o),
)

step-AreGreeted :
    (s : RoomSocket) (e : Event)
    → IsGreeted s.ws
    → AreGreeted s.orphans
    → AreGreeted (step s e).orphans
unfolding step connect ticket_came ticket_failed on_open open_ws on_message on_close reconnect close
    schedule_reconnect set_state teardown_probing on_orphan_open on_orphan_message
step-AreGreeted s (receives (some m) visible now) h o =
    ground (arith, handle-orphans m visible now s)
step-AreGreeted s (orphan_receives k (some m) visible now) h o =
    ground (arith, handle-orphans m visible now s)
step-AreGreeted s (probes visible now) h o = subst AreGreeted (sym (probe-orphans s visible now)) o
step-AreGreeted s (sends m) h o = subst AreGreeted (sym (send-orphans m s)) o
step-AreGreeted s (orphan_opens k) h o = open_orphan-AreGreeted (get_elem? s.orphans k) k s refl o
step-AreGreeted s (orphan_drops k random) h o = on_orphan_close-AreGreeted k random s h o
step-AreGreeted s (gets_ticket ticket) h o = ground (arith, orphaned-AreGreeted s.ws s.orphans h o)
step-AreGreeted s _ h o = ground arith

run_from-IsGreeted :
    (es : List Event) (s : RoomSocket)
    → IsGreeted s.ws
    → AreGreeted s.orphans
    → IsGreeted (run s es).ws × AreGreeted (run s es).orphans
unfolding run
run_from-IsGreeted [] s h o = (h, o)
run_from-IsGreeted (e ∷ es) s h o =
    run_from-IsGreeted es (step s e) (step-IsGreeted s e h) (step-AreGreeted s e h o)

-- Whatever the user does, the server answers and the timers bring, no WebSocket ever carries a frame
-- before its own ticket: neither the present one nor any that lives on once it was replaced.
pub run-IsGreeted : (es : List Event) → IsGreeted (run new es).ws × AreGreeted (run new es).orphans
unfolding new
run-IsGreeted es = run_from-IsGreeted es new tt tt
