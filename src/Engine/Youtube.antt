-- ===== src/Engine/Youtube.antt =====
-- apps/web/src/realtime/player/youtube-engine.ts: the adapter of the IFrame API.
--
-- The methods, the handlers given to the API and the timeouts are the events of a state machine.
-- The player is third-party code: what it is told is a log, newest first, and what it answers, a
-- state, a time, a length or whether it is live, is an argument of the event that asks it.
pub mod Player
pub mod Inner
pub mod Replayed
pub mod Autoplay
pub mod Length
use youtube_rooms.Prelude.{
  ℕ, suc, ◌+◌, ◌-◌, ◌*◌, ◌/◌, min, Bool, true, false, not, ◌||◌, ◌&&◌, Option, none, some, List, [],
  ◌∷◌, ltb, ◌==◌, if◌then◌else◌, is_some,
}
use youtube_rooms.Prelude.Int.{ℤ, pos, pos_part, ltb_ℤ}
use youtube_rooms.Number.{Number, num}
use youtube_rooms.Engine.{
  no_video_id, api_not_loaded, EngineEvent, on_ready, on_live, on_ended, on_intent_play,
  on_intent_pause, on_audio_blocked, on_duration_change, on_error, on_buffering_change,
  usable_duration,
}
use youtube_rooms.Engine.Youtube.Player.{
  PlayerState, is_ended, is_playing, is_paused, is_buffering, describe_player_error, cc_module,
  captions_module, PlayerCommand, play_video, pause_video, mute, un_mute, destroy_player,
  fill_container, seek_to, set_playback_rate, set_volume_percent, unload_module, Answers,
}
use youtube_rooms.Engine.Youtube.Inner.{
  Pending, YoutubeEngine, tell, command, command_player, blank, new, api_came, api_failed,
  silence_captions, after, start, check, apply_pending, report_duration, set_buffering, or_else,
}

-- The handler of onReady behind #applyPending.
unfoldable pub announce : Answers → YoutubeEngine → YoutubeEngine
announce a y =
    let told = tell on_ready y in
    report_duration a.length (if told.live then tell on_live told else told)

-- The handler of onReady, for an engine that was not destroyed.
unfoldable pub attach : Answers → YoutubeEngine → YoutubeEngine
attach a y =
    let filled = command fill_container (record y { player = true }) in
    announce a
      (apply_pending a.state (record (silence_captions filled) { live = or_else a.is_live false }))

-- The handler of onReady.
unfoldable pub on_player_ready : Answers → YoutubeEngine → YoutubeEngine
on_player_ready a y =
    if not y.constructed then y else if y.destroyed then command destroy_player y else attach a y

-- What the handler of onStateChange does where playback starts.
abbrev pub on_playing : Answers → YoutubeEngine → YoutubeEngine
on_playing a y =
    let told = tell on_intent_play y in
    let read = record told { live = or_else a.is_live told.live } in
    silence_captions
      (report_duration a.length (if read.live && not told.live then tell on_live read else read))

-- The handler of onStateChange.
unfoldable pub on_state_change : Answers → YoutubeEngine → YoutubeEngine
on_state_change a y =
    if not y.constructed
    then y
    else let buffered = set_buffering (is_buffering a.state) y in
      let ended = if is_ended a.state then tell on_ended buffered else buffered in
      let played = if is_playing a.state then on_playing a ended else ended in
      if is_paused a.state then tell on_intent_pause played else played

-- The handler of onError.
unfoldable pub on_player_error : ℕ → YoutubeEngine → YoutubeEngine
on_player_error code y = if y.constructed then tell (on_error (describe_player_error code)) y else y

-- currentTime, for a player at a time.
unfoldable pub current_time : Number → YoutubeEngine → Number
current_time time y =
    if y.player
    then time
    else elim y.pending.position [ none ↦ num (pos 0) | some position ↦ num position ]

-- duration, for a player of a length.
unfoldable pub duration : Number → YoutubeEngine → Option ℤ
duration length y =
    if y.live then none else usable_duration (if y.player then some length else none)

-- play, for a player in a state.
unfoldable pub play : PlayerState → YoutubeEngine → YoutubeEngine
play state y = start state (record y { pending = record y.pending { playing = true } })

-- pause
unfoldable pub pause : YoutubeEngine → YoutubeEngine
pause y = command_player pause_video (record y { pending = record y.pending { playing = false } })

-- seek
unfoldable pub seek : Number → YoutubeEngine → YoutubeEngine
seek (num position) y =
    if ltb_ℤ position (pos 0)
    then y
    else command_player (seek_to position)
        (record y { pending = record y.pending { position = some position } })
seek _ y = y

-- setRate
unfoldable pub set_rate : ℕ → YoutubeEngine → YoutubeEngine
set_rate rate y =
    command_player (set_playback_rate rate)
      (record y { pending = record y.pending { rate = rate } })

-- The volume from 0 to 100 of one in thousandths, rounded half up.
abbrev pub percent : ℤ → ℕ
percent volume = (min 1000 (pos_part volume) + 5) / 10

-- setVolume
unfoldable pub set_volume : ℤ → YoutubeEngine → YoutubeEngine
set_volume volume y = command_player (set_volume_percent (percent volume)) y

-- setMuted
unfoldable pub set_muted : Bool → YoutubeEngine → YoutubeEngine
set_muted muted y =
    if not y.player
    then y
    else if muted
    then command mute y
    else command un_mute (record y { blocked = false })

-- destroy
unfoldable pub destroy : YoutubeEngine → YoutubeEngine
destroy y =
    let told = command_player destroy_player y in
    record told { destroyed = true; checks = 0; player = false }

pub data Event : Type 0 where
  api_comes api_fails pauses destroys : Event
  gets_ready : Answers → Event
  changes_state : Answers → Event
  fails : ℕ → Event
  checks_autoplay : PlayerState → Event
  plays : PlayerState → Event
  seeks : Number → Event
  sets_rate : ℕ → Event
  sets_volume : ℤ → Event
  sets_muted : Bool → Event

unfoldable pub step : YoutubeEngine → Event → YoutubeEngine
step y Event.api_comes = api_came y
step y Event.api_fails = api_failed y
step y Event.pauses = pause y
step y Event.destroys = destroy y
step y (Event.gets_ready a) = on_player_ready a y
step y (Event.changes_state a) = on_state_change a y
step y (Event.fails code) = on_player_error code y
step y (Event.checks_autoplay state) = check state y
step y (Event.plays state) = play state y
step y (Event.seeks seconds) = seek seconds y
step y (Event.sets_rate rate) = set_rate rate y
step y (Event.sets_volume volume) = set_volume volume y
step y (Event.sets_muted muted) = set_muted muted y

unfoldable pub run : YoutubeEngine → List Event → YoutubeEngine
run y [] = y
run y (e ∷ es) = run (step y e) es
