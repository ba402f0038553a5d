-- ===== src/Socket/Outbox.antt =====
-- What apps/web/src/realtime/socket.ts keeps while it is down, and sends when it is back.
use youtube_rooms.Prelude.{
  ℕ, ◌≤◌, ◌≡◌, refl, sym, subst, Bool, false, Option, none, some, List, [], ◌∷◌, ◌++◌, length, All,
  arith, Bool-cases, inl, inr, All-append, All-drop, length-append, length-drop,
}
use youtube_rooms.Prelude.Int.{pos}
use youtube_rooms.Clock.Probing.{Prober}
use youtube_rooms.Protocol.Client.{ClientMessage, ping}
use youtube_rooms.Protocol.Server.{ServerMessage}
use youtube_rooms.Socket.{
  Ws, RoomSocket, Event, opens, receives, probes, sends, new, is_sample, push_out, send, send_on,
  send_all, flush_outbox, probe, schedule_reconnect, connect, ticket_came, ticket_failed, on_open,
  open_ws, handle, on_message, on_close, reconnect, close, step, run, orphan_receives, open_orphan,
  on_orphan_open, on_orphan_message, on_orphan_close,
}

abbrev pub IsAction : ClientMessage → Type 0
IsAction m = is_sample m ≡ false

-- What may wait to be sent: at most 32 messages, and no clock probe or drift report.
pub record IsOutbox (ms : List ClientMessage) : Type 0 where
  pub actions : All IsAction ms
  pub capped : length ms ≤ 32

push_out-IsOutbox :
    (ms : List ClientMessage) (m : ClientMessage)
    → IsAction m
    → IsOutbox ms
    → IsOutbox (push_out ms m)
push_out-IsOutbox ms m a h = record {
  actions = ground (
    arith,
    All-append IsAction ms (m ∷ []) h.actions (a, tt),
    All-drop IsAction 1 (ms ++ m ∷ []),
  );
  capped = ground (arith, length-append ms (m ∷ []), length-drop 1 (ms ++ m ∷ []));
}

send_on-IsOutbox :
    (w : Option Ws) (m : ClientMessage) (s : RoomSocket)
    → IsOutbox s.outbox
    → IsOutbox (send_on w m s).outbox
unfolding send_on
send_on-IsOutbox none m s h = elim (Bool-cases (is_sample m)) [
  | inl e ↦ rw e h
  | inr e ↦ rw e (push_out-IsOutbox s.outbox m e h)
]
send_on-IsOutbox (some ws) m s h = elim (Bool-cases ws.is_open) [
  | inl o ↦ rw o h
  | inr c ↦ rw c (elim (Bool-cases (is_sample m)) [
    | inl e ↦ rw e h
    | inr e ↦ rw e (push_out-IsOutbox s.outbox m e h)
  ])
]

send-IsOutbox :
    (m : ClientMessage) (s : RoomSocket) → IsOutbox s.outbox → IsOutbox (send m s).outbox
unfolding send
send-IsOutbox m s h = send_on-IsOutbox s.ws m s h

send_all-IsOutbox :
    (ms : List ClientMessage) (s : RoomSocket) → IsOutbox s.outbox → IsOutbox (send_all ms s).outbox
unfolding send_all
send_all-IsOutbox [] s h = h
send_all-IsOutbox (m ∷ ms) s h = send_all-IsOutbox ms (send m s) (send-IsOutbox m s h)

flush_outbox-IsOutbox : (s : RoomSocket) → IsOutbox (flush_outbox s).outbox
unfolding flush_outbox
flush_outbox-IsOutbox s =
    send_all-IsOutbox s.outbox (record s { outbox = [] })
      (record { actions = tt; capped = omega arith })

probe-IsOutbox :
    (p : Option Prober) (visible : Bool) (now : ℕ) (s : RoomSocket)
    → IsOutbox s.outbox
    → IsOutbox (probe p visible now s).outbox
probe-IsOutbox none visible now s h = h
probe-IsOutbox (some p) visible now s h = ground (arith, send-IsOutbox (ping (pos now)) s h)

handle-IsOutbox :
    (m : ServerMessage) (visible : Bool) (now : ℕ) (s : RoomSocket)
    → IsOutbox s.outbox
    → IsOutbox (handle m visible now s).outbox
unfolding handle
handle-IsOutbox (ServerMessage.ready r) visible now s h = flush_outbox-IsOutbox _
handle-IsOutbox (ServerMessage.pong client_sent server_time) visible now s h = h
handle-IsOutbox _ visible now s h = h

open_ws-outbox : (w : Option Ws) (s : RoomSocket) → (open_ws w s).outbox ≡ s.outbox
unfolding open_ws
open_ws-outbox none s = refl
open_ws-outbox (some ws) s = ground arith

step-IsOutbox : (s : RoomSocket) (e : Event) → IsOutbox s.outbox → IsOutbox (step s e).outbox
unfolding step connect ticket_came ticket_failed on_open on_message on_close reconnect close
    schedule_reconnect on_orphan_open open_orphan on_orphan_message on_orphan_close
step-IsOutbox s (receives (some m) visible now) h =
    ground (arith, handle-IsOutbox m visible now s h)
step-IsOutbox s (orphan_receives k (some m) visible now) h =
    ground (arith, handle-IsOutbox m visible now s h)
step-IsOutbox s (probes visible now) h = probe-IsOutbox s.prober visible now s h
step-IsOutbox s (sends m) h = send-IsOutbox m s h
step-IsOutbox s opens h = subst IsOutbox (sym (open_ws-outbox s.ws s)) h
step-IsOutbox s _ h = ground arith

run_from-IsOutbox :
    (es : List Event) (s : RoomSocket) → IsOutbox s.outbox → IsOutbox (run s es).outbox
unfolding run
run_from-IsOutbox [] s h = h
run_from-IsOutbox (e ∷ es) s h = run_from-IsOutbox es (step s e) (step-IsOutbox s e h)

-- Whatever happens, at most 32 messages wait, and never a clock probe or a drift report among them.
pub run-IsOutbox : (es : List Event) → IsOutbox (run new es).outbox
unfolding new
run-IsOutbox es = run_from-IsOutbox es new (record { actions = tt; capped = omega arith })
