-- ===== src/Socket/Replay.antt =====
-- Messages that the user sent across a blip of apps/web/src/realtime/socket.ts.
use youtube_rooms.Prelude.{
  ℕ, ◌+◌, ◌≤◌, ◌<◌, ◌≡◌, refl, ap, ◌∙◌, Bool, true, false, none, some, List, [], ◌∷◌, ◌++◌, length,
  All, arith, map, if◌then◌else◌, length-append, append_assoc, append-nil, lt→ltb,
}
use youtube_rooms.Prelude.Int.{pos}
use youtube_rooms.Protocol.Client.{ClientMessage, authenticate, ping}
use youtube_rooms.Protocol.Server.{ServerMessage, Ready}
use youtube_rooms.Store.{open_state}
use youtube_rooms.Socket.{
  Ws, RoomSocket, Event, opens, gets_ticket, receives, sends, send, send_on, send_all, flush_outbox,
  begin_probing, ticket_came, on_open, open_ws, handle, on_message, step, run,
}
use youtube_rooms.Socket.Outbox.{IsAction}

run-append : (s : RoomSocket) (es fs : List Event) → run s (es ++ fs) ≡ run (run s es) fs
unfolding run
run-append s [] fs = refl
run-append s (e ∷ es) fs = run-append (step s e) es fs

-- A socket that is not there, with what waits to be sent.
abbrev pub down : List ClientMessage → RoomSocket → RoomSocket
down outbox s = record s { ws = none; outbox = outbox }

-- A socket that is open, with what was sent on it.
abbrev pub up : ℕ → List ClientMessage → RoomSocket → RoomSocket
up ticket frames s = record s {
  ws = some (record { is_open = true; ticket = ticket; frames = frames });
}

send-down :
    (m : ClientMessage) (out : List ClientMessage) (s : RoomSocket)
    → IsAction m
    → length out < 32
    → send m (down out s) ≡ down (out ++ m ∷ []) s
unfolding send send_on
send-down m out s a h = ground (arith, length-append out (m ∷ []))

run-sends :
    (ms out : List ClientMessage) (s : RoomSocket)
    → All IsAction ms
    → length out + length ms ≤ 32
    → run (down out s) (map sends ms) ≡ down (out ++ ms) s
unfolding run step
run-sends [] out s a h = rw append-nil
run-sends (m ∷ ms) out s a h =
    ap (λ t. run t (map sends ms)) (send-down m out s a.0 (omega arith))
    ∙ run-sends ms (out ++ m ∷ []) s a.1 (omega (arith, length-append out (m ∷ [])))
    ∙ ap (λ ns. down ns s) (append_assoc out (m ∷ []) ms)

send_all-up :
    (ms frames : List ClientMessage) (ticket : ℕ) (s : RoomSocket)
    → send_all ms (up ticket frames s) ≡ up ticket (frames ++ ms) s
unfolding send_all send send_on
send_all-up [] frames ticket s = rw append-nil
send_all-up (m ∷ ms) frames ticket s =
    send_all-up ms (frames ++ m ∷ []) ticket s
    ∙ ap (λ ns. up ticket ns s) (append_assoc frames (m ∷ []) ms)

-- What goes ahead of the user's messages on a new socket.
abbrev pub greeting : ℕ → Bool → ℕ → List ClientMessage
greeting ticket visible now = authenticate ticket ∷ (if visible then ping (pos now) ∷ [] else [])

abbrev pub open_with : ℕ → List ClientMessage → Ws
open_with ticket frames = record { is_open = true; ticket = ticket; frames = frames }

-- A flush on an open socket sends what waits, in order, and leaves the rest alone.
flush_outbox-up :
    (s : RoomSocket) (ticket : ℕ) (frames : List ClientMessage)
    → s.ws ≡ some (open_with ticket frames)
    → ((flush_outbox s).ws ≡ some (open_with ticket (frames ++ s.outbox)))
      × ((flush_outbox s).outbox ≡ [])
      × ((flush_outbox s).state ≡ s.state)
      × ((flush_outbox s).attempt ≡ s.attempt)
unfolding flush_outbox
flush_outbox-up s ticket frames e =
    (ap (λ t. t.ws) sent, ap (λ t. t.outbox) sent, ap (λ t. t.state) sent, ap (λ t. t.attempt) sent)
  where
    emptied : RoomSocket
    emptied = record s { outbox = [] }

    sent : send_all s.outbox emptied ≡ up ticket (frames ++ s.outbox) emptied
    sent =
        ap (send_all s.outbox) (λ i. record emptied { ws = e i })
        ∙ send_all-up s.outbox frames ticket emptied

pub rejoin :
    (out : List ClientMessage) (s : RoomSocket) (ticket : ℕ) (r : Ready) (visible : Bool) (now : ℕ)
    → 0 < s.pending
    → let t =
        run
          (down out s)
          (gets_ticket ticket ∷ opens ∷ receives (some (ServerMessage.ready r)) visible now ∷ []) in
      (t.ws ≡ some (open_with ticket (greeting ticket visible now ++ out)))
      × (t.outbox ≡ [])
      × (t.state ≡ open_state)
      × (t.attempt ≡ 0)
unfolding run step ticket_came on_open open_ws on_message handle begin_probing send send_on
rejoin out s ticket r true now p =
    rw (lt→ltb 0 s.pending p) (flush_outbox-up _ ticket (greeting ticket true now) refl)
rejoin out s ticket r false now p =
    rw (lt→ltb 0 s.pending p) (flush_outbox-up _ ticket (greeting ticket false now) refl)

-- What the user does while the socket is down is sent once it is back, in order, behind the ticket
-- and a clock probe, if it fits the outbox with what waited before; and nothing waits any more.
pub run-rejoin :
    (ms : List ClientMessage) (s : RoomSocket) (ticket : ℕ) (r : Ready) (visible : Bool) (now : ℕ)
    → s.ws ≡ none
    → 0 < s.pending
    → All IsAction ms
    → length s.outbox + length ms ≤ 32
    → let t = run s (
        map sends ms
        ++ gets_ticket ticket ∷ opens ∷ receives (some (ServerMessage.ready r)) visible now ∷ []) in
      (t.ws ≡ some (open_with ticket (greeting ticket visible now ++ (s.outbox ++ ms))))
      × (t.outbox ≡ [])
      × (t.state ≡ open_state)
      × (t.attempt ≡ 0)
run-rejoin ms s ticket r visible now e p a h =
    rw (run-append s (map sends ms), waiting) (rejoin (s.outbox ++ ms) s ticket r visible now p)
  where
    waiting : run s (map sends ms) ≡ down (s.outbox ++ ms) s
    waiting =
        ap (λ t. run t (map sends ms)) (λ i. record s { ws = e i }) ∙ run-sends ms s.outbox s a h
