-- ===== src/Tests/Room.antt =====
-- The room's player.
use youtube_rooms.Prelude.{leb, ◌≤◌, ◌≡◌, refl, true, false, none, some, List, [], ◌∷◌}
use youtube_rooms.Prelude.Int.{pos}
use youtube_rooms.Units.{ms_position}
use youtube_rooms.Timeline.{Timeline}
use youtube_rooms.Engine.{on_ready, on_buffering_change, on_audio_blocked, on_duration_change}
use youtube_rooms.Engine.Kick
use youtube_rooms.Engine.Kick.{parse_kick}
use youtube_rooms.Player.View.{Room, blank, visible}
use youtube_rooms.Player.Controls.{
  Stage, Event, run, renders, hears, presses, rate_item, play_button, sound_button, volume_slider,
  unmute_button,
}
use youtube_rooms.Player.Announced.{is_playback_ready, heard, LogOf, of_kick, run-readies_once}
use youtube_rooms.Engine.{count}
use youtube_rooms.Player.Permission.{needs_control, run-denied}
use youtube_rooms.Player.Taps.{tap, run-tap}
use youtube_rooms.Protocol.Client.{pause, sync_intent}
use youtube_rooms.Tests.Fixtures.{everything, playing}

abbrev timed : Timeline
timed = record playing { duration = some (ms_position 600000) }

abbrev owned : Room
owned = record { socket = some 1; timeline = some timed; permissions = some everything; queue = [] }

abbrev watched : Room
watched = record owned { permissions = some (record everything { can_control_playback = false }) }

abbrev start : Room → Stage
start room = record { room = room; player = blank }

abbrev loads : List Event
loads =
    renders owned
    ∷ hears (on_buffering_change false) [] none
    ∷ presses play_button
    ∷ hears on_ready [] none
    ∷ []

loads-LogOf : LogOf (heard loads [])
unfolding Kick.new Kick.run Kick.step Kick.on_load parse_kick
loads-LogOf = of_kick true (some (5 ∷ [])) (Kick.loads ∷ [])

run-readies_once_example : count is_playback_ready (run (start owned) loads).player.sent ≤ 1
run-readies_once_example = run-readies_once (start owned) loads loads-LogOf

abbrev watches : List Event
watches =
    hears on_audio_blocked [] none
    ∷ presses play_button
    ∷ presses (rate_item 6)
    ∷ hears (on_duration_change (pos 9)) [] none
    ∷ renders watched
    ∷ []

run-denied_example : leb (count needs_control (run (start watched) watches).player.sent) 1 ≡ true
run-denied_example = (run-denied (start watched) watches refl (tt, (tt, (tt, (tt, (refl, tt)))))).1

abbrev listens : List Event
listens =
    renders owned
    ∷ hears on_audio_blocked [] none
    ∷ presses unmute_button
    ∷ presses (volume_slider false 7)
    ∷ presses (sound_button false)
    ∷ []

-- A tap that should wake the bar.
abbrev asleep : Stage
asleep = record (start owned) { player = record blank { awake = false } }

run-tap_example : (run asleep (tap 0)).player.sent ≡ sync_intent pause 1 ∷ []
unfolding visible
run-tap_example = run-tap asleep timed 1 0 refl refl refl refl
