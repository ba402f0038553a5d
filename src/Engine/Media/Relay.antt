-- ===== src/Engine/Media/Relay.antt =====
-- When apps/web/src/realtime/player/media-engine.ts asks the server's relay.
use youtube_rooms.Prelude.{
  ℕ, ◌+◌, ◌≤◌, ◌≡◌, Bool, true, false, Option, none, some, List, [], ◌∷◌, arith,
}
use youtube_rooms.Number.{num}
use youtube_rooms.Protocol.Primitives.{SourceKind}
use youtube_rooms.Engine.{count, usable_duration}
use youtube_rooms.Engine.Media.Inner.{
  MediaCommand, load_source, Streaming, hls_stream, MediaEngine, VideoEvent, new, on_video, listen,
}
use youtube_rooms.Engine.Media.{
  network_error, on_import, on_fatal, on_hls_error, on_manifest, play, on_started, on_retried,
  pause, seek, set_rate, set_volume, set_muted, destroy, start_hls, Event, step, run,
}

abbrev pub is_direct : MediaCommand → Bool
is_direct (load_source false) = true
is_direct _ = false

abbrev pub is_relayed : MediaCommand → Bool
is_relayed (load_source true) = true
is_relayed _ = false

abbrev pub relayed_loads : Option Streaming → ℕ
relayed_loads (some (hls_stream true)) = 1
relayed_loads _ = 0

-- No stream while a library is awaited, one direct load for each of hls.js, and a load through the
-- relay only behind it.
pub Inv : MediaEngine → Type 0
Inv m =
    (m.importing ≡ true → (count is_direct m.commands ≡ 0) × (m.streaming ≡ none))
    × (count is_direct m.commands ≤ 1)
    × (count is_relayed m.commands ≤ count is_direct m.commands)
    × (m.streaming ≡ some (hls_stream false)
        → (count is_direct m.commands ≡ 1) × (count is_relayed m.commands ≡ 0))

listen-Inv : (e : VideoEvent) (m : MediaEngine) → Inv m → Inv (listen e m)
unfolding listen Inv usable_duration
listen-Inv e m h = ground arith

on_video-Inv : (e : VideoEvent) (m : MediaEngine) → Inv m → Inv (on_video e m)
unfolding on_video
on_video-Inv e m h = ground (arith, listen-Inv e m h, h)

on_import-Inv :
    (supported native : Bool) (m : MediaEngine) → Inv m → Inv (on_import supported native m)
unfolding on_import Inv start_hls
on_import-Inv supported native m h = ground arith

step-Inv : (m : MediaEngine) (e : Event) → Inv m → Inv (step m e)
unfolding step Inv on_hls_error on_fatal start_hls on_manifest play on_started on_retried pause
    set_rate set_volume set_muted destroy seek
step-Inv m (Event.videos e) h = on_video-Inv e m h
step-Inv m (Event.imports supported native) h = on_import-Inv supported native m h
step-Inv m (Event.seeks (num position)) h = ground arith
step-Inv m (Event.seeks _) h = h
step-Inv m _ h = ground arith

run-Inv : (m : MediaEngine) (es : List Event) → Inv m → Inv (run m es)
unfolding run
run-Inv m [] h = h
run-Inv m (e ∷ es) h = run-Inv (step m e) es (step-Inv m e h)

new-Inv : (kind : SourceKind) → Inv (new kind)
unfolding new Inv
new-Inv kind = ground arith

Inv-loads :
    (m : MediaEngine)
    → Inv m
    → (count is_direct m.commands ≤ 1) × (count is_relayed m.commands ≤ count is_direct m.commands)
unfolding Inv
Inv-loads m h = (h.1, h.2)

-- A stream is loaded directly at most once, and through the server's relay at most once and only
-- where it was loaded directly before, whatever errors hls.js reports.
pub run-loads :
    (kind : SourceKind) (es : List Event)
    → (count is_direct (run (new kind) es).commands ≤ 1)
      × (count is_relayed (run (new kind) es).commands
          ≤ count is_direct (run (new kind) es).commands)
run-loads kind es = Inv-loads (run (new kind) es) (run-Inv (new kind) es (new-Inv kind))

-- A fatal error of the network on a stream that was loaded directly is no failure yet: the stream
-- is loaded again through the relay, and the room is told nothing.
pub on_hls_error-network :
    (m : MediaEngine)
    → m.streaming ≡ some (hls_stream false)
    → ((on_hls_error true network_error m).streaming ≡ some (hls_stream true))
      × (count is_relayed (on_hls_error true network_error m).commands
          ≡ count is_relayed m.commands + 1)
      × ((on_hls_error true network_error m).events ≡ m.events)
unfolding on_hls_error on_fatal start_hls
on_hls_error-network m h = ground arith
