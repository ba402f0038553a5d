-- ===== src/Engine/Media.antt =====
-- apps/web/src/realtime/player/media-engine.ts: the adapter of a `<video>` element.
--
-- The methods, the listeners, the imports and the promises of play() are the events of a state
-- machine. The element, hls.js and dash.js are third-party code: what they are told is a log,
-- newest first, and what they answer is an argument of the event that asks.
pub mod Inner
pub mod Levels
pub mod Dash
pub mod Relay
pub mod Sound
pub mod Ended
use youtube_rooms.Prelude.{
  ℕ, suc, ◌+◌, ◌-◌, min, Bool, true, false, not, ◌||◌, ◌&&◌, Option, none, some, List, [], ◌∷◌, ltb,
  ◌==◌, if◌then◌else◌, is_some,
}
use youtube_rooms.Prelude.Int.{ℤ, pos, pos_part, ltb_ℤ}
use youtube_rooms.Number.{Number, num}
use youtube_rooms.Protocol.Primitives.{SourceKind, file, hls, dash}
use youtube_rooms.Engine.{
  Failure, aborted, network_dropped, not_decodable, not_playable, unknown_media, no_hls,
  stream_failed, relayed_stream_failed, unsupported, EngineEvent, on_ready, on_qualities_change,
  on_ended, on_intent_play, on_intent_pause, on_audio_blocked, on_duration_change, on_error,
  on_buffering_change, usable_duration,
}
use youtube_rooms.Engine.Media.Inner.{
  MediaCommand, set_src, remove_src, load_element, play_element, pause_element, load_source,
  start_load, recover_media_error, destroy_hls, initialize_dash, destroy_dash, set_current_time,
  set_playback_rate, set_element_volume, Streaming, hls_stream, dash_stream, MediaEngine, tell,
  command, VideoEvent, on_video,
}

-- xhrSetup: the token goes with the requests to the relay alone.
unfoldable pub authorization : Bool → Option ℕ → Option ℕ
authorization to_relay token = if to_relay then token else none

-- #startHls
unfoldable pub start_hls : Bool → MediaEngine → MediaEngine
start_hls relayed m =
    command (load_source relayed) (record m { streaming = some (hls_stream relayed) })

-- #attachSource, behind its wait: `supported` is Hls.isSupported(), `native` the answer of
-- canPlayType.
unfoldable pub on_import : Bool → Bool → MediaEngine → MediaEngine
on_import supported native m =
    let came = record m { importing = false } in
    if not m.importing then m else if m.destroyed then came else elim m.kind [
      | hls ↦
          if supported
          then start_hls false came
          else if native
          then command set_src came
          else tell (on_error no_hls) came
      | dash ↦ command initialize_dash (record came { streaming = some dash_stream })
      | _ ↦ came
    ]

-- ErrorTypes of hls.js
pub data HlsError : Type 0 where
  network_error media_error other_error : HlsError

-- The listener of ERROR, of the instance that is in use, for an error that is fatal.
unfoldable pub on_fatal : HlsError → Bool → MediaEngine → MediaEngine
on_fatal network_error relayed m =
    if relayed
    then command start_load m
    else start_hls true (record (command destroy_hls m) { streaming = none })
on_fatal media_error relayed m = command recover_media_error m
on_fatal other_error relayed m =
    tell (on_error (if relayed then relayed_stream_failed else stream_failed)) m

unfoldable pub on_hls_error : Bool → HlsError → MediaEngine → MediaEngine
on_hls_error fatal error m = elim m.streaming [
  | some (hls_stream relayed) ↦ if fatal then on_fatal error relayed m else m
  | _ ↦ m
]

-- The listeners of MANIFEST_PARSED and streamInitialized.
unfoldable pub on_manifest : MediaEngine → MediaEngine
on_manifest m = if is_some m.streaming then tell on_qualities_change m else m

-- duration and live, for an element of a length.
unfoldable pub duration : Number → Option ℤ
duration length = usable_duration (some length)

unfoldable pub live : Number → MediaEngine → Bool
live length m = elim m.kind [ file ↦ false | _ ↦ not (is_some (duration length)) ]

-- play, for an element that is paused or not, up to the promise.
unfoldable pub play : Bool → MediaEngine → MediaEngine
play paused m = if paused then command play_element (record m { starting = suc m.starting }) else m

-- play, behind the promise.
unfoldable pub on_started : Bool → MediaEngine → MediaEngine
on_started fulfilled m =
    let settled = record m { starting = m.starting - 1 } in
    if m.starting == 0
    then m
    else if fulfilled || m.muted || m.blocked || m.destroyed
    then settled
    else command play_element
        (record settled { blocked = true; muted = true; retrying = suc m.retrying })

-- play, behind the promise of its second attempt.
unfoldable pub on_retried : Bool → MediaEngine → MediaEngine
on_retried fulfilled m =
    let settled = record m { retrying = m.retrying - 1 } in
    if m.retrying == 0
    then m
    else if fulfilled
    then tell on_audio_blocked settled
    else record settled { muted = false; blocked = false }

-- pause
unfoldable pub pause : MediaEngine → MediaEngine
pause m = command pause_element m

-- seek
unfoldable pub seek : Number → MediaEngine → MediaEngine
seek (num position) m = if ltb_ℤ position (pos 0) then m else command (set_current_time position) m
seek _ m = m

-- setRate
unfoldable pub set_rate : ℕ → MediaEngine → MediaEngine
set_rate rate m = command (set_playback_rate rate) m

-- setVolume, in thousandths.
unfoldable pub set_volume : ℤ → MediaEngine → MediaEngine
set_volume volume m = command (set_element_volume (min 1000 (pos_part volume))) m

-- setMuted
unfoldable pub set_muted : Bool → MediaEngine → MediaEngine
set_muted muted m = record m { blocked = muted && m.blocked; muted = muted }

abbrev pub destroy_streaming : Option Streaming → MediaEngine → MediaEngine
destroy_streaming none m = m
destroy_streaming (some (hls_stream relayed)) m = command destroy_hls m
destroy_streaming (some dash_stream) m = command destroy_dash m

-- destroy
unfoldable pub destroy : MediaEngine → MediaEngine
destroy m =
    let ended = destroy_streaming m.streaming (record m { destroyed = true }) in
    command load_element (command remove_src (record ended { streaming = none }))

pub data Event : Type 0 where
  videos : VideoEvent → Event
  imports : Bool → Bool → Event
  hls_errors : Bool → HlsError → Event
  parses destroys pauses_engine : Event
  plays_engine starts retries : Bool → Event
  seeks : Number → Event
  sets_rate : ℕ → Event
  sets_volume : ℤ → Event
  sets_muted : Bool → Event

unfoldable pub step : MediaEngine → Event → MediaEngine
step m (Event.videos e) = on_video e m
step m (Event.imports supported native) = on_import supported native m
step m (Event.hls_errors fatal error) = on_hls_error fatal error m
step m Event.parses = on_manifest m
step m Event.destroys = destroy m
step m Event.pauses_engine = pause m
step m (Event.plays_engine paused) = play paused m
step m (Event.starts fulfilled) = on_started fulfilled m
step m (Event.retries fulfilled) = on_retried fulfilled m
step m (Event.seeks seconds) = seek seconds m
step m (Event.sets_rate rate) = set_rate rate m
step m (Event.sets_volume volume) = set_volume volume m
step m (Event.sets_muted muted) = set_muted muted m

unfoldable pub run : MediaEngine → List Event → MediaEngine
run m [] = m
run m (e ∷ es) = run (step m e) es
