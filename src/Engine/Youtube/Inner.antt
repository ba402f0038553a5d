-- ===== src/Engine/Youtube/Inner.antt =====
-- The state and the private methods of apps/web/src/realtime/player/youtube-engine.ts.
use youtube_rooms.Prelude.{
  ℕ, suc, ◌-◌, Bool, true, false, not, ◌||◌, ◌&&◌, Option, none, some, List, [], ◌∷◌, ◌==◌,
  if◌then◌else◌,
}
use youtube_rooms.Prelude.Int.{ℤ}
use youtube_rooms.Number.{Number}
use youtube_rooms.Engine.{
  no_video_id, api_not_loaded, EngineEvent, on_audio_blocked, on_duration_change, on_error,
  on_buffering_change, usable_duration,
}
use youtube_rooms.Engine.Youtube.Player.{
  PlayerState, is_playing, is_buffering, cc_module, captions_module, PlayerCommand, play_video,
  pause_video, mute, seek_to, set_playback_rate, unload_module,
}

-- The commands that wait for the player.
pub record Pending : Type 0 where
  pub playing : Bool
  pub position : Option ℤ
  pub rate : ℕ

-- The private fields. `player` says that there is one; `checks` counts the timeouts of the autoplay
-- check; `loading` and `constructed` say how far #create came.
pub record YoutubeEngine : Type 0 where
  pub player : Bool
  pub destroyed : Bool
  pub buffering : Bool
  pub live : Bool
  pub checks : ℕ
  pub blocked : Bool
  pub verifying : Bool
  pub pending : Pending
  pub loading : Bool
  pub constructed : Bool
  pub commands : List PlayerCommand
  pub events : List EngineEvent

abbrev pub tell : EngineEvent → YoutubeEngine → YoutubeEngine
tell e y = record y { events = e ∷ y.events }

abbrev pub command : PlayerCommand → YoutubeEngine → YoutubeEngine
command c y = record y { commands = c ∷ y.commands }

-- `#player?.`
abbrev pub command_player : PlayerCommand → YoutubeEngine → YoutubeEngine
command_player c y = if y.player then command c y else y

abbrev pub autoplay_grace_ms : ℕ
autoplay_grace_ms = 1200

abbrev pub blank : Bool → YoutubeEngine
blank loading = record {
  player = false;
  destroyed = false;
  buffering = false;
  live = false;
  checks = 0;
  blocked = false;
  verifying = false;
  pending = record { playing = false; position = none; rate = 4 };
  loading = loading;
  constructed = false;
  commands = [];
  events = [];
}

-- The constructor, and #create up to its wait for the API. A rate is in quarters.
unfoldable pub new : Option ℕ → YoutubeEngine
new none = tell (on_error no_video_id) (blank false)
new (some video_id) = blank true

-- #create behind its wait: the API came, or it could not be loaded.
unfoldable pub api_came : YoutubeEngine → YoutubeEngine
api_came y = record y {
  loading = false;
  constructed = y.constructed || (y.loading && not y.destroyed);
}

unfoldable pub api_failed : YoutubeEngine → YoutubeEngine
api_failed y =
    if y.loading then tell (on_error api_not_loaded) (record y { loading = false }) else y

-- #silenceCaptions
abbrev pub silence_captions : YoutubeEngine → YoutubeEngine
silence_captions y = command (unload_module captions_module) (command (unload_module cc_module) y)

-- #after
abbrev pub after : YoutubeEngine → YoutubeEngine
after y = record y { checks = suc y.checks }

-- #start, for a player in a state.
unfoldable pub start : PlayerState → YoutubeEngine → YoutubeEngine
start state y =
    if not y.player || is_playing state || is_buffering state
    then y
    else let played = command play_video y in
      if played.blocked || played.verifying
      then played
      else after (record played { verifying = true })

-- The autoplay check, a while later.
unfoldable pub check : PlayerState → YoutubeEngine → YoutubeEngine
check state y =
    if y.destroyed || (y.checks == 0)
    then y
    else let fired = record y { checks = y.checks - 1; verifying = false } in
      if not fired.pending.playing || not fired.player || is_playing state || is_buffering state
      then fired
      else tell on_audio_blocked
          (command play_video (command mute (record fired { blocked = true })))

unfoldable pub seek_pending : Option ℤ → YoutubeEngine → YoutubeEngine
seek_pending none y = y
seek_pending (some position) y = command (seek_to position) y

-- #applyPending
unfoldable pub apply_pending : PlayerState → YoutubeEngine → YoutubeEngine
unfolding seek_pending
apply_pending state y =
    if not y.player
    then y
    else let sought =
        seek_pending y.pending.position (command (set_playback_rate y.pending.rate) y) in
      if y.pending.playing then start state sought else command pause_video sought

unfoldable pub tell_duration : Option ℤ → YoutubeEngine → YoutubeEngine
tell_duration none y = y
tell_duration (some seconds) y = tell (on_duration_change seconds) y

-- #reportDuration
unfoldable pub report_duration : Number → YoutubeEngine → YoutubeEngine
unfolding tell_duration
report_duration length y = if y.live then y else tell_duration (usable_duration (some length)) y

-- #setBuffering
abbrev pub set_buffering : Bool → YoutubeEngine → YoutubeEngine
set_buffering true y =
    if y.buffering then y else tell (on_buffering_change true) (record y { buffering = true })
set_buffering false y =
    if y.buffering then tell (on_buffering_change false) (record y { buffering = false }) else y

abbrev pub or_else : Option Bool → Bool → Bool
or_else none b = b
or_else (some a) b = a
