-- ===== src/Player/Permission.antt =====
-- What apps/web/src/components/room/player.tsx sends for a viewer who may not control playback.
use youtube_rooms.Prelude.Text.{Text}
use youtube_rooms.Engine.{EngineEvent, count}
use youtube_rooms.Prelude.{
  Option, ◌≡◌, refl, ◌∙◌, ap, ℕ, ◌+◌, leb, Bool, true, false, List, [], ◌∷◌, filter, All, arith,
}
use youtube_rooms.Protocol.Client.{ClientMessage, sync_intent, playback_ready, set_rate}
use youtube_rooms.Player.View.{
  Room, Player, can_control, rebuild, render, on_engine, update, wake, idle,
}
use youtube_rooms.Player.Controls.{
  send, toggle, seek_by, apply_volume, toggle_mute, restore_audio, apply_quality, Control, enabled,
  act, press, Event, Stage, step, run,
}

-- The messages that the server takes only from one who may control playback, of those that the player
-- sends: all but that the source is loaded.
abbrev pub needs_control : ClientMessage → Bool
needs_control (playback_ready version) = false
needs_control _ = true

-- Those but the speed's, whose menus are not disabled.
abbrev pub needs_button : ClientMessage → Bool
needs_button (sync_intent (set_rate quarters) version) = false
needs_button message = needs_control message

-- How often an entry of the speed's menu is chosen.
abbrev pub is_rate_press : Event → Bool
is_rate_press (Event.presses (Control.rate_item quarters)) = true
is_rate_press _ = false

abbrev pub Denies : Event → Type 0
Denies (Event.renders room) = can_control room ≡ false
Denies _ = Unit

-- What one player has sent beyond another, while an entry of the speed's menu is chosen n times: no
-- message for which a button stands, and at most n for which the permission is needed.
abbrev pub Sends : ℕ → Player → Player → Type 0
Sends n p q =
    (filter needs_button q.sent ≡ filter needs_button p.sent)
    × (leb (count needs_control q.sent) (n + count needs_control p.sent) ≡ true)

Sends-refl : (p q : Player) → q.sent ≡ p.sent → Sends 0 p q
Sends-refl p q e = (ap (filter needs_button) e, ground (arith, e))

press-Sends :
    (c : Control) (room : Room) (p : Player)
    → can_control room ≡ false
    → Sends (count is_rate_press (Event.presses c ∷ [])) p (press c room p)
unfolding press act enabled send toggle seek_by apply_volume toggle_mute restore_audio apply_quality
    wake
press-Sends c room p d = ground arith

on_engine-Sends :
    (room : Room) (e : EngineEvent) (menu : List Text) (chosen : Option Text) (p : Player)
    → can_control room ≡ false
    → Sends 0 p (on_engine room menu chosen e p)
unfolding on_engine
on_engine-Sends room e menu chosen p d = ground arith

render-sent : (old room : Room) (p : Player) → (render old room p).sent ≡ p.sent
unfolding render rebuild
render-sent old room p = ground arith

step-Sends :
    (s : Stage) (e : Event)
    → can_control s.room ≡ false
    → Denies e
    → (can_control (step s e).room ≡ false)
      × Sends (count is_rate_press (e ∷ [])) s.player (step s e).player
unfolding step update wake idle
step-Sends s (Event.renders room) d k =
    (k, Sends-refl s.player (render s.room room s.player) (render-sent s.room room s.player))
step-Sends s (Event.hears e menu chosen) d k = (d, on_engine-Sends s.room e menu chosen s.player d)
step-Sends s (Event.presses c) d k = (d, press-Sends c s.room s.player d)
step-Sends s _ d k = ground arith

-- While the viewer may not control playback, as the room's permissions stand at first and in every
-- render, whatever is pressed and whatever the engine tells: of the messages for which the server asks
-- for that permission, the player adds none but those that ask for another speed, and of these at most
-- one for each time that an entry of the speed's menu is chosen.
pub run-denied :
    (s : Stage) (es : List Event)
    → can_control s.room ≡ false
    → All Denies es
    → (filter needs_button (run s es).player.sent ≡ filter needs_button s.player.sent)
      × (leb
            (count needs_control (run s es).player.sent)
            (count is_rate_press es + count needs_control s.player.sent)
          ≡ true)
unfolding run
run-denied s [] d k = Sends-refl s.player s.player refl
run-denied s (e ∷ es) d k =
    let (still, first) = step-Sends s e d k.0 in
    let rest = run-denied (step s e) es still k.1 in
    (rest.0 ∙ first.0, ground (arith, rest.1, first.1))
