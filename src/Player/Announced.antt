-- ===== src/Player/Announced.antt =====
-- The engines of apps/web/src/realtime/player under the player of components/room/player.tsx.
use youtube_rooms.Prelude.{ℕ, suc, ◌+◌, ◌≤◌, ◌≡◌, Bool, true, false, Option, List, [], ◌∷◌, arith}
use youtube_rooms.Prelude.Text.{Text}
use youtube_rooms.Protocol.Primitives.{SourceKind}
use youtube_rooms.Protocol.Client.{ClientMessage, playback_ready}
use youtube_rooms.Engine.{EngineEvent, count, is_on_ready, once}
use youtube_rooms.Engine.Kick
use youtube_rooms.Engine.Twitch
use youtube_rooms.Engine.Twitch.Inner
use youtube_rooms.Engine.Twitch.Autoplay.{run-announces_once}
use youtube_rooms.Engine.Media
use youtube_rooms.Engine.Media.Sound.{run-announces}
use youtube_rooms.Player.View.{Room, Player, rebuild, render, on_engine, update, wake, idle}
use youtube_rooms.Player.Controls.{
  send, toggle, seek_by, apply_volume, toggle_mute, restore_audio, apply_quality, Control, enabled,
  act, press, Event, Stage, step, run,
}

abbrev pub is_playback_ready : ClientMessage → Bool
is_playback_ready (playback_ready version) = true
is_playback_ready _ = false

abbrev pub readies : Stage → ℕ
readies s = count is_playback_ready s.player.sent

-- The calls of the engine among the events, newest first.
abbrev pub hear : Event → List EngineEvent → List EngineEvent
hear (Event.hears e menu chosen) log = e ∷ log
hear _ log = log

abbrev pub heard : List Event → List EngineEvent → List EngineEvent
heard [] log = log
heard (e ∷ es) log = heard es (hear e log)

press-readies :
    (c : Control) (room : Room) (p : Player)
    → count is_playback_ready (press c room p).sent ≡ count is_playback_ready p.sent
unfolding press act enabled send toggle seek_by apply_volume toggle_mute restore_audio apply_quality
    wake
press-readies c room p = ground arith

hears-readies :
    (room : Room) (e : EngineEvent) (menu : List Text) (chosen : Option Text) (p : Player)
    → count is_playback_ready (on_engine room menu chosen e p).sent
      ≤ count is_playback_ready p.sent + once (is_on_ready e)
unfolding on_engine
hears-readies room e menu chosen p = ground arith

render-readies :
    (old room : Room) (p : Player)
    → count is_playback_ready (render old room p).sent ≡ count is_playback_ready p.sent
unfolding render rebuild
render-readies old room p = ground arith

step-readies :
    (s : Stage) (e : Event) (log : List EngineEvent) (n : ℕ)
    → readies s ≤ n + count is_on_ready log
    → readies (step s e) ≤ n + count is_on_ready (hear e log)
unfolding step update wake idle
step-readies s (Event.renders room) log n h = ground (arith, render-readies s.room room s.player)
step-readies s (Event.hears e menu chosen) log n h =
    ground (arith, hears-readies s.room e menu chosen s.player)
step-readies s (Event.presses c) log n h = ground (arith, press-readies c s.room s.player)
step-readies s _ log n h = ground arith

run-readies :
    (s : Stage) (es : List Event) (log : List EngineEvent) (n : ℕ)
    → readies s ≤ n + count is_on_ready log
    → readies (run s es) ≤ n + count is_on_ready (heard es log)
unfolding run
run-readies s [] log n h = h
run-readies s (e ∷ es) log n h = run-readies (step s e) es (hear e log) n (step-readies s e log n h)

Told : Kick.KickEngine → Type 0
Told k = count is_on_ready k.events ≡ once k.announced

step-Told : (k : Kick.KickEngine) (e : Kick.Event) → Told k → Told (Kick.step k e)
unfolding Told Kick.step Kick.play Kick.pause Kick.set_muted Kick.destroy Kick.on_load
    Kick.on_frame_error Kick.time_out
step-Told k e h = ground arith

run-Told : (k : Kick.KickEngine) (es : List Kick.Event) → Told k → Told (Kick.run k es)
unfolding Kick.run
run-Told k [] h = h
run-Told k (e ∷ es) h = run-Told (Kick.step k e) es (step-Told k e h)

new-Told : (active : Bool) (url : Option (List ℕ)) → Told (Kick.new active url)
unfolding Told Kick.new
new-Told active url = ground arith

Told-le : (k : Kick.KickEngine) → Told k → count is_on_ready k.events ≤ 1
unfolding Told
Told-le k h = ground arith

-- What an engine tells over its life: of Twitch, of Kick, or of the media element.
pub data LogOf : List EngineEvent → Type 0 where
  of_twitch :
      (url : Option (List Text)) (ts : List Twitch.Event)
      → LogOf (Twitch.run (Inner.new url) ts).events
  of_kick :
      (active : Bool) (url : Option (List ℕ)) (ts : List Kick.Event)
      → LogOf (Kick.run (Kick.new active url) ts).events
  of_media :
      (kind : SourceKind) (ts : List Media.Event)
      → LogOf (Media.run (Media.Inner.new kind) ts).events

LogOf-ready : {log : List EngineEvent} → LogOf log → count is_on_ready log ≤ 1
LogOf-ready (of_twitch url ts) = (run-announces_once url ts).0
LogOf-ready (of_kick active url ts) =
    Told-le (Kick.run (Kick.new active url) ts)
      (run-Told (Kick.new active url) ts (new-Told active url))
LogOf-ready (of_media kind ts) = (run-announces kind ts).0

-- While one engine of Twitch, of Kick or of the media element tells what it tells, in whatever order
-- its embed's events come and whatever the room and the viewer do in between, the server is told at
-- most once that the source is loaded.
pub run-readies_once :
    (s : Stage) (es : List Event)
    → LogOf (heard es [])
    → count is_playback_ready (run s es).player.sent ≤ suc (count is_playback_ready s.player.sent)
run-readies_once s es l =
    omega (arith, run-readies s es [] (readies s) (omega arith), LogOf-ready l)
