-- ===== src/Engine/Youtube/Player.antt =====
-- apps/web/src/realtime/youtube.ts: the player of the IFrame API, as the engine uses it.
use youtube_rooms.Prelude.{ℕ, Bool, true, false, ◌||◌, ◌==◌, if◌then◌else◌, Option}
use youtube_rooms.Prelude.Int.{ℤ}
use youtube_rooms.Number.{Number}
use youtube_rooms.Engine.{Failure, invalid_id, not_embeddable, removed, not_allowed, unexpected}

-- PlayerState; the values of the API are -1, 0, 1, 2, 3 and 5.
pub data PlayerState : Type 0 where
  unstarted ended playing paused buffering cued : PlayerState

abbrev pub is_ended : PlayerState → Bool
is_ended ended = true
is_ended _ = false

abbrev pub is_playing : PlayerState → Bool
is_playing playing = true
is_playing _ = false

abbrev pub is_paused : PlayerState → Bool
is_paused paused = true
is_paused _ = false

abbrev pub is_buffering : PlayerState → Bool
is_buffering buffering = true
is_buffering _ = false

-- describePlayerError
unfoldable pub describe_player_error : ℕ → Failure
describe_player_error code =
    if code == 2
    then invalid_id
    else if code == 5
    then not_embeddable
    else if code == 100
    then removed
    else if code == 101 || code == 150
    then not_allowed
    else unexpected

pub data Module : Type 0 where
  cc_module captions_module : Module

-- The calls of the player that change it.
pub data PlayerCommand : Type 0 where
  play_video pause_video mute un_mute destroy_player fill_container : PlayerCommand
  seek_to : ℤ → PlayerCommand
  set_playback_rate : ℕ → PlayerCommand
  set_volume_percent : ℕ → PlayerCommand
  unload_module : Module → PlayerCommand

-- What a player answers: whether it is live, where it can tell, its length and its state.
pub record Answers : Type 0 where
  pub is_live : Option Bool
  pub length : Number
  pub state : PlayerState
