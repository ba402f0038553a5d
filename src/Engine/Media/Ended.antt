-- ===== src/Engine/Media/Ended.antt =====
-- What is left of an engine of apps/web/src/realtime/player/media-engine.ts behind destroy.
use youtube_rooms.Prelude.{◌≡◌, Bool, true, false, not, none, List, [], ◌∷◌, arith}
use youtube_rooms.Number.{num}
use youtube_rooms.Engine.{EngineEvent, count, is_on_audio_blocked}
use youtube_rooms.Engine.Media.Inner.{
  MediaCommand, set_src, load_source, initialize_dash, MediaEngine, on_video,
}
use youtube_rooms.Engine.Media.{
  on_import, on_hls_error, on_manifest, play, on_started, on_retried, pause, seek, set_rate,
  set_volume, set_muted, destroy, Event, step, run,
}

-- A command that makes the browser fetch a source.
abbrev pub fetches : MediaCommand → Bool
fetches set_src = true
fetches (load_source relayed) = true
fetches initialize_dash = true
fetches _ = false

abbrev pub other_event : EngineEvent → Bool
other_event e = not (is_on_audio_blocked e)

IsDown : MediaEngine → MediaEngine → Type 0
IsDown m z =
    (z.destroyed ≡ true)
    × (z.streaming ≡ none)
    × (count fetches z.commands ≡ count fetches m.commands)
    × (count other_event z.events ≡ count other_event m.events)

step-IsDown : (m z : MediaEngine) (e : Event) → IsDown m z → IsDown m (step z e)
unfolding step IsDown on_video on_import on_hls_error on_manifest play on_started on_retried pause
    set_rate set_volume set_muted destroy seek
step-IsDown m z (Event.seeks (num position)) h = ground arith
step-IsDown m z (Event.seeks _) h = h
step-IsDown m z _ h = ground arith

run-IsDown : (m z : MediaEngine) (es : List Event) → IsDown m z → IsDown m (run z es)
unfolding run
run-IsDown m z [] h = h
run-IsDown m z (e ∷ es) h = run-IsDown m (step z e) es (step-IsDown m z e h)

destroy-IsDown : (m : MediaEngine) → IsDown m (destroy m)
unfolding destroy IsDown
destroy-IsDown m = ground arith

-- Behind destroy nothing streams, whatever follows, a library that arrives late included: no source
-- is fetched any more, and no event but the offer of the sound, from an attempt to play that was
-- already under way, reaches the room.
pub run-destroy :
    (m : MediaEngine) (es : List Event)
    → ((run (destroy m) es).streaming ≡ none)
      × (count fetches (run (destroy m) es).commands ≡ count fetches m.commands)
      × (count other_event (run (destroy m) es).events ≡ count other_event m.events)
unfolding IsDown
run-destroy m es =
    let down = run-IsDown m (destroy m) es (destroy-IsDown m) in (down.1, down.2, down.3)
