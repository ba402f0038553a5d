-- ===== src/Engine/Twitch.antt =====
-- apps/web/src/realtime/player/twitch-engine.ts: the adapter of the Twitch embed.
--
-- The methods, the listeners and the timeouts are the events of a state machine. The embed is
-- third-party code: what it is told is a log, newest first, and what it answers is an argument.
pub mod Renditions
pub mod Inner
pub mod Autoplay
pub mod Choice
pub mod Replayed
use youtube_rooms.Prelude.{
  ℕ, suc, ◌-◌, min, Bool, true, false, not, ◌||◌, ◌&&◌, Option, none, some, List, [], ◌∷◌, ◌==◌,
  if◌then◌else◌, is_some,
}
use youtube_rooms.Prelude.Int.{ℤ, pos, pos_part, ltb_ℤ}
use youtube_rooms.Prelude.Text.{Text, codes, same_text, is_empty, join}
use youtube_rooms.Number.{Number, num}
use youtube_rooms.Engine.{
  Failure, not_a_twitch_link, twitch_not_loaded, twitch_offline, EngineEvent, on_ready,
  on_qualities_change, on_ended, on_intent_play, on_intent_pause, on_audio_blocked,
  on_duration_change, on_error, on_buffering_change, usable_duration,
}
use youtube_rooms.Engine.Twitch.Renditions.{Quality, Menu, auto_group, get, collect, parse_twitch}
use youtube_rooms.Engine.Twitch.Inner.{
  TwitchCommand, pause_embed, destroy_embed, seek_embed, set_embed_volume, set_embed_muted,
  set_embed_quality, Pending, TwitchEngine, tell, command, command_player, new, api_came,
  api_failed, set_buffering, mark_ready, start, check, apply_pending, read_qualities,
}

-- The listener of `ready`, for an engine that was not destroyed.
unfoldable pub attach : Option Bool → TwitchEngine → TwitchEngine
attach paused t = mark_ready (apply_pending paused (record t { player = true }))

-- The listener of `ready`.
unfoldable pub on_embed_ready : Option Bool → TwitchEngine → TwitchEngine
on_embed_ready paused t = if not t.constructed || t.destroyed then t else attach paused t

-- The listener of `playing`, up to #readQualities, for an embed that has a length, where it can tell.
unfoldable pub begin : Option Number → TwitchEngine → TwitchEngine
begin length t =
    let told = tell on_intent_play (set_buffering false (mark_ready t)) in
    elim (usable_duration length) [
      | none ↦ told
      | some seconds ↦ tell (on_duration_change seconds) told
    ]

-- The listener of `playing`; the embed may offer renditions.
unfoldable pub on_playing : Option Number → Option (List Quality) → TwitchEngine → TwitchEngine
on_playing length options t =
    if not t.constructed then t else read_qualities options (begin length t)

-- The listeners of `pause`, `ended` and `offline`.
unfoldable pub on_pause : TwitchEngine → TwitchEngine
on_pause t = if t.constructed then tell on_intent_pause t else t

unfoldable pub on_end : TwitchEngine → TwitchEngine
on_end t = if t.constructed then tell on_ended t else t

unfoldable pub on_offline : TwitchEngine → TwitchEngine
on_offline t = if t.constructed then tell (on_error twitch_offline) t else t

-- currentTime and duration, for an embed at a time and of a length.
unfoldable pub current_time : Number → TwitchEngine → Number
current_time time t =
    if t.player
    then time
    else elim t.pending.position [ none ↦ num (pos 0) | some position ↦ num position ]

unfoldable pub duration : Option Number → TwitchEngine → Option ℤ
duration length t = usable_duration (if t.player then length else none)

unfoldable pub set_group : Option Text → Text → TwitchEngine → TwitchEngine
set_group none label t = t
set_group (some group) label t =
    if is_empty group
    then t
    else command (set_embed_quality group) (record t { pinned = some label })

-- setQuality
unfoldable pub set_quality : Option Text → TwitchEngine → TwitchEngine
unfolding set_group
set_quality none t =
    if t.player then command (set_embed_quality auto_group) (record t { pinned = none }) else t
set_quality (some label) t = if t.player then set_group (get t.groups label) label t else t

-- play, for an embed that is paused or not.
unfoldable pub play : Option Bool → TwitchEngine → TwitchEngine
play paused t = start paused (record t { pending = record t.pending { playing = true } })

-- pause
unfoldable pub pause : TwitchEngine → TwitchEngine
pause t = command_player pause_embed (record t { pending = record t.pending { playing = false } })

-- seek, for an embed of a length; setRate does nothing.
unfoldable pub seek : Number → Option Number → TwitchEngine → TwitchEngine
seek (num position) length t =
    if ltb_ℤ position (pos 0)
    then t
    else let kept = record t { pending = record t.pending { position = some position } } in
      if is_some (duration length kept) then command_player (seek_embed position) kept else kept
seek _ length t = t

-- setVolume, in thousandths.
unfoldable pub set_volume : ℤ → TwitchEngine → TwitchEngine
set_volume volume t =
    let clamped = min 1000 (pos_part volume) in
    command_player (set_embed_volume clamped)
      (record t { pending = record t.pending { volume = clamped } })

-- setMuted
unfoldable pub set_muted : Bool → TwitchEngine → TwitchEngine
set_muted muted t =
    command_player (set_embed_muted muted)
      (record t { pending = record t.pending { muted = muted }; blocked = muted && t.blocked })

-- destroy
unfoldable pub destroy : TwitchEngine → TwitchEngine
destroy t =
    let told = command_player destroy_embed t in
    record told { destroyed = true; checks = 0; player = false }

pub data Event : Type 0 where
  api_comes api_fails stops ends goes_offline pauses destroys sets_rate : Event
  gets_ready : Option Bool → Event
  starts : Option Number → Option (List Quality) → Event
  checks_autoplay : Option Bool → Event
  plays : Option Bool → Event
  seeks : Number → Option Number → Event
  sets_volume : ℤ → Event
  sets_muted : Bool → Event
  sets_quality : Option Text → Event

unfoldable pub step : TwitchEngine → Event → TwitchEngine
step t Event.api_comes = api_came t
step t Event.api_fails = api_failed t
step t Event.stops = on_pause t
step t Event.ends = on_end t
step t Event.goes_offline = on_offline t
step t Event.pauses = pause t
step t Event.destroys = destroy t
step t Event.sets_rate = t
step t (Event.gets_ready paused) = on_embed_ready paused t
step t (Event.starts length options) = on_playing length options t
step t (Event.checks_autoplay paused) = check paused t
step t (Event.plays paused) = play paused t
step t (Event.seeks seconds length) = seek seconds length t
step t (Event.sets_volume volume) = set_volume volume t
step t (Event.sets_muted muted) = set_muted muted t
step t (Event.sets_quality label) = set_quality label t

unfoldable pub run : TwitchEngine → List Event → TwitchEngine
run t [] = t
run t (e ∷ es) = run (step t e) es
