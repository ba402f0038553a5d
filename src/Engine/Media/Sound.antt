-- ===== src/Engine/Media/Sound.antt =====
-- How often apps/web/src/realtime/player/media-engine.ts tells the room of one thing.
use youtube_rooms.Prelude.{ℕ, suc, ◌+◌, ◌≤◌, ◌≡◌, Bool, false, List, [], ◌∷◌, arith}
use youtube_rooms.Number.{num}
use youtube_rooms.Protocol.Primitives.{SourceKind}
use youtube_rooms.Engine.{count, is_on_ready, is_on_audio_blocked, once, usable_duration}
use youtube_rooms.Engine.Media.Inner.{MediaEngine, VideoEvent, new, on_video, listen}
use youtube_rooms.Engine.Media.{
  on_import, on_fatal, on_hls_error, on_manifest, play, on_started, on_retried, pause, seek,
  set_rate, set_volume, set_muted, destroy, start_hls, Event, step, run,
}

-- How often the sound was turned back on, beyond n times.
abbrev pub unmute : Event → ℕ → ℕ
unmute (Event.sets_muted false) n = suc n
unmute _ n = n

abbrev pub unmutes : List Event → ℕ → ℕ
unmutes [] n = n
unmutes (e ∷ es) n = unmutes es (unmute e n)

-- The source is announced once, and each second attempt to play belongs to one loss of the sound.
pub Inv : ℕ → MediaEngine → Type 0
Inv n m =
    (count is_on_ready m.events ≡ once m.ready)
    × (count is_on_audio_blocked m.events + m.retrying ≤ once m.blocked + n)

listen-Inv : (n : ℕ) (e : VideoEvent) (m : MediaEngine) → Inv n m → Inv n (listen e m)
unfolding listen Inv usable_duration
listen-Inv n e m h = ground arith

on_video-Inv : (n : ℕ) (e : VideoEvent) (m : MediaEngine) → Inv n m → Inv n (on_video e m)
unfolding on_video
on_video-Inv n e m h = ground (arith, listen-Inv n e m h, h)

on_import-Inv :
    (n : ℕ) (supported native : Bool) (m : MediaEngine)
    → Inv n m
    → Inv n (on_import supported native m)
unfolding on_import Inv start_hls
on_import-Inv n supported native m h = ground arith

step-Inv : (n : ℕ) (m : MediaEngine) (e : Event) → Inv n m → Inv (unmute e n) (step m e)
unfolding step Inv on_hls_error on_fatal start_hls on_manifest play on_started on_retried pause
    set_rate set_volume set_muted destroy seek
step-Inv n m (Event.videos e) h = on_video-Inv n e m h
step-Inv n m (Event.imports supported native) h = on_import-Inv n supported native m h
step-Inv n m (Event.seeks (num position)) h = ground arith
step-Inv n m (Event.seeks _) h = h
step-Inv n m _ h = ground arith

run-Inv : (n : ℕ) (m : MediaEngine) (es : List Event) → Inv n m → Inv (unmutes es n) (run m es)
unfolding run
run-Inv n m [] h = h
run-Inv n m (e ∷ es) h = run-Inv (unmute e n) (step m e) es (step-Inv n m e h)

new-Inv : (kind : SourceKind) → Inv 0 (new kind)
unfolding new Inv
new-Inv kind = ground arith

Inv-bounds :
    (n : ℕ) (m : MediaEngine)
    → Inv n m
    → (count is_on_ready m.events ≤ 1) × (count is_on_audio_blocked m.events ≤ suc n)
unfolding Inv
Inv-bounds n m h = ground arith

-- Whatever order the element's events come in, the room is told at most once that the source is
-- ready; and however often a start is refused, it is offered the sound back at most once, and once
-- more for each time that the viewer turned it back on.
pub run-announces :
    (kind : SourceKind) (es : List Event)
    → (count is_on_ready (run (new kind) es).events ≤ 1)
      × (count is_on_audio_blocked (run (new kind) es).events ≤ suc (unmutes es 0))
run-announces kind es =
    Inv-bounds (unmutes es 0) (run (new kind) es) (run-Inv 0 (new kind) es (new-Inv kind))
