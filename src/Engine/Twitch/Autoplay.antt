-- ===== src/Engine/Twitch/Autoplay.antt =====
-- What apps/web/src/realtime/player/twitch-engine.ts tells the room of its start.
use youtube_rooms.Prelude.{
  ℕ, suc, ◌+◌, ◌≤◌, ◌≡◌, Bool, true, false, not, Option, none, some, List, [], ◌∷◌, arith,
  if◌then◌else◌,
}
use youtube_rooms.Prelude.Text.{Text}
use youtube_rooms.Number.{Number, num}
use youtube_rooms.Engine.{
  count, is_on_ready, is_on_audio_blocked, once, usable_duration, on_intent_play,
  on_duration_change,
}
use youtube_rooms.Prelude.Int.{ℤ}
use youtube_rooms.Engine.Twitch.Renditions.{Quality}
use youtube_rooms.Engine.Twitch.Inner.{
  TwitchEngine, tell, set_buffering, new, api_came, api_failed, mark_ready, is_going, start, check,
  apply_pending, read_qualities,
}
use youtube_rooms.Engine.Twitch.{
  attach, on_embed_ready, begin, on_playing, on_pause, on_end, on_offline, play, pause, seek,
  set_volume, set_muted, set_quality, destroy, Event, step, run,
}

-- How often the sound was turned back on, beyond n times.
abbrev pub unmute : Event → ℕ → ℕ
unmute (Event.sets_muted false) n = suc n
unmute _ n = n

abbrev pub unmutes : List Event → ℕ → ℕ
unmutes [] n = n
unmutes (e ∷ es) n = unmutes es (unmute e n)

-- The source is announced once; a check is outstanding where the engine says so, none is while it
-- has muted itself; and each loss of the sound is told once.
pub record Inv (n : ℕ) (t : TwitchEngine) : Type 0 where
  pub told : count is_on_ready t.events ≡ once t.announced
  pub shown : t.player ≡ true → t.announced ≡ true
  pub bounded : t.checks ≤ once t.verifying
  pub armed : t.destroyed ≡ false → t.checks ≡ once t.verifying
  pub kept : t.player ≡ true → t.destroyed ≡ false
  pub quiet : t.blocked ≡ true → t.verifying ≡ false
  pub lost : count is_on_audio_blocked t.events ≤ once t.blocked + n
  pub owed : once t.blocked ≤ count is_on_audio_blocked t.events

if_Inv : (n : ℕ) (b : Bool) {t u : TwitchEngine} → Inv n t → Inv n u → Inv n (if b then t else u)
if_Inv n true h k = h
if_Inv n false h k = k

attach-Inv :
    (n : ℕ) (paused : Option Bool) (t : TwitchEngine)
    → t.destroyed ≡ false
    → Inv n t
    → Inv n (attach paused t)
unfolding attach apply_pending start
attach-Inv n paused t d h = ground arith

read_qualities-Inv :
    (n : ℕ) (options : Option (List Quality)) (t : TwitchEngine)
    → Inv n t
    → Inv n (read_qualities options t)
unfolding read_qualities
read_qualities-Inv n options t h = ground arith

mark_ready-Inv : (n : ℕ) (t : TwitchEngine) → Inv n t → Inv n (mark_ready t)
mark_ready-Inv n t h = ground arith

set_buffering-Inv : (n : ℕ) (t : TwitchEngine) → Inv n t → Inv n (set_buffering false t)
set_buffering-Inv n t h = ground arith

-- What is told of a start and of a length counts for nothing here.
tell-Inv :
    (n : ℕ) (d : Option ℤ) (t : TwitchEngine)
    → Inv n t
    → Inv n (elim d [
      | none ↦ tell on_intent_play t
      | some seconds ↦ tell (on_duration_change seconds) (tell on_intent_play t)
    ])
tell-Inv n none t h = ground arith
tell-Inv n (some seconds) t h = ground arith

begin-Inv : (n : ℕ) (length : Option Number) (t : TwitchEngine) → Inv n t → Inv n (begin length t)
unfolding begin
begin-Inv n length t h =
    tell-Inv n (usable_duration length) _ (set_buffering-Inv n _ (mark_ready-Inv n t h))

on_playing-Inv :
    (n : ℕ) (length : Option Number) (options : Option (List Quality)) (t : TwitchEngine)
    → Inv n t
    → Inv n (on_playing length options t)
unfolding on_playing
on_playing-Inv n length options t h =
    if_Inv n (not t.constructed) h (read_qualities-Inv n options _ (begin-Inv n length t h))

step-Inv : (n : ℕ) (t : TwitchEngine) (e : Event) → Inv n t → Inv (unmute e n) (step t e)
unfolding step start check play seek api_came api_failed on_embed_ready on_pause on_end on_offline
    pause set_volume set_muted set_quality destroy
step-Inv n t (Event.gets_ready paused) h = ground (arith, attach-Inv n paused t)
step-Inv n t (Event.starts length options) h = on_playing-Inv n length options t h
step-Inv n t (Event.seeks (num position) length) h = ground arith
step-Inv n t (Event.seeks _ length) h = h
step-Inv n t (Event.sets_quality none) h = ground arith
step-Inv n t (Event.sets_quality (some label)) h = ground arith
step-Inv n t _ h = ground arith

run-Inv : (n : ℕ) (t : TwitchEngine) (es : List Event) → Inv n t → Inv (unmutes es n) (run t es)
unfolding run
run-Inv n t [] h = h
run-Inv n t (e ∷ es) h = run-Inv (unmute e n) (step t e) es (step-Inv n t e h)

new-Inv : (url : Option (List Text)) → Inv 0 (new url)
unfolding new
new-Inv url = ground arith

reached : (url : Option (List Text)) (es : List Event) → Inv (unmutes es 0) (run (new url) es)
reached url es = run-Inv 0 (new url) es (new-Inv url)

Inv-bounds :
    (n : ℕ) (t : TwitchEngine)
    → Inv n t
    → (count is_on_ready t.events ≤ 1)
      × (t.checks ≤ 1)
      × (count is_on_audio_blocked t.events ≤ suc n)
Inv-bounds n t h = ground arith

-- Whether `ready` or `playing` comes first, the room is told at most once that the source is ready;
-- although the sync loop calls play on every tick, at most one autoplay check is outstanding; and
-- the engine takes the sound away at most once, and once more for each time that it was turned back
-- on.
pub run-announces_once :
    (url : Option (List Text)) (es : List Event)
    → (count is_on_ready (run (new url) es).events ≤ 1)
      × ((run (new url) es).checks ≤ 1)
      × (count is_on_audio_blocked (run (new url) es).events ≤ suc (unmutes es 0))
run-announces_once url es = Inv-bounds (unmutes es 0) (run (new url) es) (reached url es)

refused :
    (n : ℕ) (t : TwitchEngine) (before : Option Bool)
    → Inv n t
    → t.player ≡ true
    → is_going before ≡ false
    → ((check (some true) (play before t)).blocked ≡ true)
      × (1 ≤ count is_on_audio_blocked (check (some true) (play before t)).events)
unfolding check play start
refused n t before h p b = ground arith

-- A viewer whose browser refuses an audible start is never left with a still frame: where play is
-- called while the embed does not say that it goes, and the check finds it paused, the engine counts
-- itself as muted by the refusal and has told the room, at the check or earlier.
pub check-play_refused :
    (url : Option (List Text)) (es : List Event) (before : Option Bool)
    → (run (new url) es).player ≡ true
    → is_going before ≡ false
    → ((check (some true) (play before (run (new url) es))).blocked ≡ true)
      × (1 ≤ count is_on_audio_blocked (check (some true) (play before (run (new url) es))).events)
check-play_refused url es before p b =
    refused (unmutes es 0) (run (new url) es) before (reached url es) p b
