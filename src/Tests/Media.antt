-- ===== src/Tests/Media.antt =====
-- The `<video>` element.
use youtube_rooms.Prelude.{◌≤◌, true, false, List, [], ◌∷◌}
use youtube_rooms.Protocol.Primitives.{hls}
use youtube_rooms.Engine.{count}
use youtube_rooms.Engine.Media.{
  Event, plays_engine, starts, retries, videos, imports, hls_errors, network_error, run,
}
use youtube_rooms.Engine.Media.Inner.{new, can_play, playing}
use youtube_rooms.Engine.Media.Relay.{is_direct, is_relayed, run-loads}

-- A stream whose server answers other sites with a refusal, and then drops it.
abbrev refused_stream : List Event
refused_stream =
    imports true false
    ∷ hls_errors true network_error
    ∷ hls_errors true network_error
    ∷ videos can_play
    ∷ plays_engine true
    ∷ starts false
    ∷ retries true
    ∷ videos playing
    ∷ []

run-loads_example :
    (count is_direct (run (new hls) refused_stream).commands ≤ 1)
    × (count is_relayed (run (new hls) refused_stream).commands
        ≤ count is_direct (run (new hls) refused_stream).commands)
run-loads_example = run-loads hls refused_stream
