-- ===== src/Engine/Youtube/Autoplay.antt =====
-- How apps/web/src/realtime/player/youtube-engine.ts works around a refused start.
use youtube_rooms.Prelude.{
  ℕ, suc, ◌+◌, ◌≤◌, ◌≡◌, Bool, true, false, not, ◌||◌, ◌&&◌, Option, none, some, List, [], ◌∷◌,
  arith, if◌then◌else◌, Bool-cases, inl, inr,
}
use youtube_rooms.Prelude.Int.{ℤ}
use youtube_rooms.Number.{Number, num}
use youtube_rooms.Engine.{
  count, is_on_audio_blocked, once, usable_duration, on_ready, on_live, on_intent_play,
  on_intent_pause, on_ended,
}
use youtube_rooms.Engine.Youtube.Player.{
  PlayerState, is_playing, is_buffering, is_ended, PlayerCommand, pause_video, destroy_player,
  set_playback_rate, fill_container, Answers,
}
use youtube_rooms.Engine.Youtube.Inner.{
  Pending, YoutubeEngine, set_buffering, tell, command, silence_captions, or_else, new, api_came,
  api_failed, start, check, seek_pending, apply_pending, report_duration, tell_duration,
}
use youtube_rooms.Engine.Youtube.{
  announce, attach, on_player_ready, on_playing, on_state_change, on_player_error, play, pause,
  seek, set_rate, set_volume, set_muted, destroy, Event, step, run,
}

-- How often the sound was turned back on, beyond n times.
abbrev pub unmute : Event → ℕ → ℕ
unmute (Event.sets_muted false) n = suc n
unmute _ n = n

abbrev pub unmutes : List Event → ℕ → ℕ
unmutes [] n = n
unmutes (e ∷ es) n = unmutes es (unmute e n)

-- A check is outstanding where the engine says so, none is while it has muted itself, and it told
-- the room of its muting once for each time that the sound was turned back on, and once more.
pub Inv : ℕ → YoutubeEngine → Type 0
Inv n y =
    (y.checks ≤ once y.verifying)
    × (y.destroyed ≡ false → y.checks ≡ once y.verifying)
    × (y.player ≡ true → y.destroyed ≡ false)
    × (y.blocked ≡ true → y.verifying ≡ false)
    × (count is_on_audio_blocked y.events ≤ once y.blocked + n)
    × (once y.blocked ≤ count is_on_audio_blocked y.events)

start-Inv : (n : ℕ) (state : PlayerState) (y : YoutubeEngine) → Inv n y → Inv n (start state y)
unfolding start Inv
start-Inv n state y h = ground arith

seek_pending-Inv : (n : ℕ) (p : Option ℤ) (y : YoutubeEngine) → Inv n y → Inv n (seek_pending p y)
unfolding seek_pending Inv
seek_pending-Inv n none y h = h
seek_pending-Inv n (some position) y h = h

tell_duration-Inv : (n : ℕ) (d : Option ℤ) (y : YoutubeEngine) → Inv n y → Inv n (tell_duration d y)
unfolding tell_duration Inv
tell_duration-Inv n none y h = h
tell_duration-Inv n (some seconds) y h = h

report_duration-Inv :
    (n : ℕ) (length : Number) (y : YoutubeEngine) → Inv n y → Inv n (report_duration length y)
unfolding report_duration
report_duration-Inv n length y h =
    ground (arith, tell_duration-Inv n (usable_duration (some length)) y h)

check-Inv : (n : ℕ) (state : PlayerState) (y : YoutubeEngine) → Inv n y → Inv n (check state y)
unfolding check Inv
check-Inv n state y h = ground arith

command-Inv : (n : ℕ) (c : PlayerCommand) (y : YoutubeEngine) → Inv n y → Inv n (command c y)
unfolding Inv
command-Inv n c y h = h

sought-Inv :
    (n : ℕ) (y : YoutubeEngine)
    → Inv n y
    → Inv n (seek_pending y.pending.position (command (set_playback_rate y.pending.rate) y))
sought-Inv n y h = seek_pending-Inv n y.pending.position _ (command-Inv n _ y h)

apply_pending-Inv :
    (n : ℕ) (state : PlayerState) (y : YoutubeEngine) → Inv n y → Inv n (apply_pending state y)
unfolding apply_pending
apply_pending-Inv n state y h = ground (
  arith,
  start-Inv n state _ (sought-Inv n y h),
  command-Inv n pause_video _ (sought-Inv n y h),
  h,
)

told-Inv :
    (n : ℕ) (y : YoutubeEngine)
    → Inv n y
    → Inv n (if y.live then tell on_live (tell on_ready y) else tell on_ready y)
unfolding Inv
told-Inv n y h = ground arith

announce-Inv : (n : ℕ) (a : Answers) (y : YoutubeEngine) → Inv n y → Inv n (announce a y)
unfolding announce
announce-Inv n a y h = report_duration-Inv n a.length _ (told-Inv n y h)

filled-Inv :
    (n : ℕ) (live : Bool) (y : YoutubeEngine)
    → y.destroyed ≡ false
    → Inv n y
    → Inv n (record (silence_captions (command fill_container (record y { player = true }))) {
      live = live;
    })
unfolding Inv
filled-Inv n live y d h = (h.0, h.1, λ p. d, h.3, h.4, h.5)

attach-Inv :
    (n : ℕ) (a : Answers) (y : YoutubeEngine) → y.destroyed ≡ false → Inv n y → Inv n (attach a y)
unfolding attach
attach-Inv n a y d h =
    announce-Inv n a _
      (apply_pending-Inv n a.state _ (filled-Inv n (or_else a.is_live false) y d h))

on_player_ready-Inv :
    (n : ℕ) (a : Answers) (y : YoutubeEngine) → Inv n y → Inv n (on_player_ready a y)
unfolding on_player_ready
on_player_ready-Inv n a y h = elim (Bool-cases y.destroyed) [
  | inl d ↦ ground (arith, command-Inv n destroy_player y h)
  | inr d ↦ ground (arith, attach-Inv n a y d h)
]

silence_captions-Inv : (n : ℕ) (y : YoutubeEngine) → Inv n y → Inv n (silence_captions y)
unfolding Inv
silence_captions-Inv n y h = h

read-Inv :
    (n : ℕ) (live : Bool) (y : YoutubeEngine)
    → Inv n y
    → Inv n (
        let told = tell on_intent_play y in
        let read = record told { live = live } in
        if read.live && not told.live then tell on_live read else read)
unfolding Inv
read-Inv n live y h = ground arith

on_playing-Inv : (n : ℕ) (a : Answers) (y : YoutubeEngine) → Inv n y → Inv n (on_playing a y)
on_playing-Inv n a y h =
    silence_captions-Inv n _
      (report_duration-Inv n a.length _ (read-Inv n (or_else a.is_live y.live) y h))

begun-Inv :
    (n : ℕ) (state : PlayerState) (y : YoutubeEngine)
    → Inv n y
    → Inv n (
        let buffered = set_buffering (is_buffering state) y in
        if is_ended state then tell on_ended buffered else buffered)
unfolding Inv
begun-Inv n state y h = ground arith

paused-Inv : (n : ℕ) (y : YoutubeEngine) → Inv n y → Inv n (tell on_intent_pause y)
unfolding Inv
paused-Inv n y h = h

on_state_change-Inv :
    (n : ℕ) (a : Answers) (y : YoutubeEngine) → Inv n y → Inv n (on_state_change a y)
unfolding on_state_change
on_state_change-Inv n a y h = elim (Bool-cases (is_playing a.state)) [
  | inl p ↦ ground (
    arith,
    on_playing-Inv n a _ (begun-Inv n a.state y h),
    paused-Inv n _ (on_playing-Inv n a _ (begun-Inv n a.state y h)),
  )
  | inr p ↦ ground (arith, begun-Inv n a.state y h, paused-Inv n _ (begun-Inv n a.state y h))
]

wished-Inv : (n : ℕ) (w : Pending) (y : YoutubeEngine) → Inv n y → Inv n (record y { pending = w })
unfolding Inv
wished-Inv n w y h = h

play-Inv : (n : ℕ) (state : PlayerState) (y : YoutubeEngine) → Inv n y → Inv n (play state y)
unfolding play
play-Inv n state y h = start-Inv n state _ (wished-Inv n (record y.pending { playing = true }) y h)

seek-Inv : (n : ℕ) (seconds : Number) (y : YoutubeEngine) → Inv n y → Inv n (seek seconds y)
unfolding seek Inv
seek-Inv n (num position) y h = ground arith
seek-Inv n Number.pos_inf y h = h
seek-Inv n Number.neg_inf y h = h
seek-Inv n Number.nan y h = h

step-Inv : (n : ℕ) (y : YoutubeEngine) (e : Event) → Inv n y → Inv (unmute e n) (step y e)
unfolding step Inv api_came api_failed on_player_error pause set_rate set_volume set_muted destroy
step-Inv n y (Event.gets_ready a) h = on_player_ready-Inv n a y h
step-Inv n y (Event.changes_state a) h = on_state_change-Inv n a y h
step-Inv n y (Event.checks_autoplay state) h = check-Inv n state y h
step-Inv n y (Event.plays state) h = play-Inv n state y h
step-Inv n y (Event.seeks seconds) h = seek-Inv n seconds y h
step-Inv n y _ h = ground arith

run-Inv : (n : ℕ) (y : YoutubeEngine) (es : List Event) → Inv n y → Inv (unmutes es n) (run y es)
unfolding run
run-Inv n y [] h = h
run-Inv n y (e ∷ es) h = run-Inv (unmute e n) (step y e) es (step-Inv n y e h)

new-Inv : (video_id : Option ℕ) → Inv 0 (new video_id)
unfolding new Inv
new-Inv none = ground arith
new-Inv (some v) = ground arith

reached : (video_id : Option ℕ) (es : List Event) → Inv (unmutes es 0) (run (new video_id) es)
reached video_id es = run-Inv 0 (new video_id) es (new-Inv video_id)

Inv-bounds :
    (n : ℕ) (y : YoutubeEngine)
    → Inv n y
    → (y.checks ≤ 1) × (count is_on_audio_blocked y.events ≤ suc n)
unfolding Inv
Inv-bounds n y h = ground arith

-- Although the sync loop calls play on every tick, at most one autoplay check is outstanding, and
-- the engine takes the sound away at most once, and once more for each time that the viewer turned
-- it back on.
pub run-checks :
    (video_id : Option ℕ) (es : List Event)
    → ((run (new video_id) es).checks ≤ 1)
      × (count is_on_audio_blocked (run (new video_id) es).events ≤ suc (unmutes es 0))
run-checks video_id es = Inv-bounds (unmutes es 0) _ (reached video_id es)

abbrev pub is_going : PlayerState → Bool
is_going state = is_playing state || is_buffering state
