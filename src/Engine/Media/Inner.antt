-- ===== src/Engine/Media/Inner.antt =====
-- The state and the listeners of apps/web/src/realtime/player/media-engine.ts.
use youtube_rooms.Prelude.{
  ℕ, Bool, true, false, Option, none, some, List, [], ◌∷◌, ◌==◌, if◌then◌else◌,
}
use youtube_rooms.Prelude.Int.{ℤ}
use youtube_rooms.Number.{Number}
use youtube_rooms.Protocol.Primitives.{SourceKind, file, hls, dash}
use youtube_rooms.Engine.{
  Failure, aborted, network_dropped, not_decodable, not_playable, unknown_media, unsupported,
  EngineEvent, on_ready, on_ended, on_intent_play, on_intent_pause, on_duration_change, on_error,
  on_buffering_change, usable_duration,
}

-- The calls of the element and of the two libraries. `load_source` says whether the address is the
-- relay's.
pub data MediaCommand : Type 0 where
  set_src remove_src load_element play_element pause_element : MediaCommand
  load_source : Bool → MediaCommand
  start_load recover_media_error destroy_hls initialize_dash destroy_dash : MediaCommand
  set_current_time : ℤ → MediaCommand
  set_playback_rate : ℕ → MediaCommand
  set_element_volume : ℕ → MediaCommand

-- #streaming: an instance of hls.js, which loads directly or through the relay, or of dash.js.
pub data Streaming : Type 0 where
  hls_stream : Bool → Streaming
  dash_stream : Streaming

-- The private fields, and `video.muted`. `importing` says that a library is awaited; `starting` and
-- `retrying` count the promises of play that are not settled.
pub record MediaEngine : Type 0 where
  pub kind : SourceKind
  pub buffering : Bool
  pub ready : Bool
  pub destroyed : Bool
  pub streaming : Option Streaming
  pub blocked : Bool
  pub muted : Bool
  pub importing : Bool
  pub starting : ℕ
  pub retrying : ℕ
  pub commands : List MediaCommand
  pub events : List EngineEvent

abbrev pub tell : EngineEvent → MediaEngine → MediaEngine
tell e m = record m { events = e ∷ m.events }

abbrev pub command : MediaCommand → MediaEngine → MediaEngine
command c m = record m { commands = c ∷ m.commands }

abbrev pub blank : SourceKind → MediaEngine
blank kind = record {
  kind = kind;
  buffering = false;
  ready = false;
  destroyed = false;
  streaming = none;
  blocked = false;
  muted = false;
  importing = false;
  starting = 0;
  retrying = 0;
  commands = [];
  events = [];
}

-- The constructor, and #attachSource up to its wait for a library.
unfoldable pub new : SourceKind → MediaEngine
new file = command load_element (command set_src (blank file))
new hls = record (blank hls) { importing = true }
new dash = record (blank dash) { importing = true }
new kind = tell (on_error unsupported) (blank kind)

-- #markReady
abbrev pub mark_ready : MediaEngine → MediaEngine
mark_ready m = if m.ready then m else tell on_ready (record m { ready = true })

-- #setBuffering
abbrev pub set_buffering : Bool → MediaEngine → MediaEngine
set_buffering true m =
    if m.buffering then m else tell (on_buffering_change true) (record m { buffering = true })
set_buffering false m =
    if m.buffering then tell (on_buffering_change false) (record m { buffering = false }) else m

abbrev pub tell_duration : Option ℤ → MediaEngine → MediaEngine
tell_duration d m = elim d [ none ↦ m | some seconds ↦ tell (on_duration_change seconds) m ]

-- describeMediaError; a code that is missing is 0.
unfoldable pub describe_media_error : ℕ → Failure
describe_media_error code =
    if code == 1
    then aborted
    else if code == 2
    then network_dropped
    else if code == 3
    then not_decodable
    else if code == 4
    then not_playable
    else unknown_media

-- The events of the element that #bindEvents listens to.
pub data VideoEvent : Type 0 where
  loaded_metadata duration_change : Number → VideoEvent
  waiting stalled playing can_play ended plays pauses : VideoEvent
  errors : ℕ → VideoEvent

unfoldable pub listen : VideoEvent → MediaEngine → MediaEngine
listen (loaded_metadata length) m = tell_duration (usable_duration (some length)) (mark_ready m)
listen (duration_change length) m = tell_duration (usable_duration (some length)) m
listen waiting m = set_buffering true m
listen stalled m = set_buffering true m
listen playing m = set_buffering false (mark_ready m)
listen can_play m = set_buffering false (mark_ready m)
listen ended m = tell on_ended m
listen plays m = tell on_intent_play m
listen pauses m = tell on_intent_pause m
listen (errors code) m = tell (on_error (describe_media_error code)) m

-- The listeners, which destroy takes off.
unfoldable pub on_video : VideoEvent → MediaEngine → MediaEngine
on_video e m = if m.destroyed then m else listen e m
