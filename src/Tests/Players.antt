-- ===== src/Tests/Players.antt =====
-- The embedded players.
use youtube_rooms.Prelude.{ℕ, ◌≡◌, refl, true, false, Option, none, some, List, [], ◌∷◌}
use youtube_rooms.Prelude.Int.{pos}
use youtube_rooms.Number.{num, nan}
use youtube_rooms.Engine.Kick
use youtube_rooms.Engine.Kick.Shown.{run-frame}
use youtube_rooms.Engine.Youtube
use youtube_rooms.Engine.Youtube.Inner
use youtube_rooms.Engine.Youtube.Inner.{YoutubeEngine}
use youtube_rooms.Engine.Youtube.Player.{
  Answers, cued, playing, play_video, seek_to, set_playback_rate, unload_module, captions_module,
  cc_module, fill_container,
}
use youtube_rooms.Engine.Youtube.Replayed.{on_player_ready-replayed}
use youtube_rooms.Engine.Scripts
use youtube_rooms.Engine.Scripts.{youtube}
use youtube_rooms.Engine.Scripts.Once.{run-appends_once}

abbrev channel_url : Option (List ℕ)
channel_url = some (0 ∷ 7 ∷ [])

-- A channel that is loaded, paused, given its sound back, and played again.
abbrev kick_calls : List Kick.Event
kick_calls = Kick.loads ∷ Kick.pauses ∷ Kick.sets_muted false ∷ Kick.plays ∷ Kick.times_out ∷ []

run-frame_example : (Kick.run (Kick.new false channel_url) kick_calls).frame ≡ some false
unfolding Kick.parse_kick
run-frame_example = run-frame false channel_url kick_calls

abbrev answers : Answers
answers = record { is_live = none; length = num (pos 600); state = cued }

abbrev early_calls : List Youtube.Event
early_calls =
    Youtube.plays cued
    ∷ Youtube.seeks (num (pos 42))
    ∷ Youtube.api_comes
    ∷ Youtube.seeks nan
    ∷ Youtube.sets_rate 6
    ∷ []

on_player_ready-replayed_example :
    (Youtube.on_player_ready answers (Youtube.run (Inner.new (some 5)) early_calls)).commands
    ≡ play_video
      ∷ seek_to (pos 42)
      ∷ set_playback_rate 6
      ∷ unload_module captions_module
      ∷ unload_module cc_module
      ∷ fill_container
      ∷ []
unfolding Inner.new Youtube.run Youtube.step Youtube.play Youtube.seek Youtube.set_rate
    Inner.api_came Inner.start
on_player_ready-replayed_example = on_player_ready-replayed 5 early_calls answers refl refl

abbrev window_answers : Answers
window_answers = record { is_live = some true; length = num (pos 12826800); state = playing }

-- An engine whose player said that it is live.
abbrev live_engine : YoutubeEngine
live_engine = record (Inner.blank false) { player = true; constructed = true; live = true }

-- A script that cannot be loaded, and two more players that ask for it.
run-appends_once_example :
    (Scripts.run youtube
      (Scripts.run youtube (Scripts.new true 0) (Scripts.loads ∷ Scripts.script_fails ∷ []))
      (Scripts.loads ∷ Scripts.loads ∷ [])).appended
    ≡ (Scripts.run youtube
        (Scripts.new true 0)
        (Scripts.loads ∷ Scripts.script_fails ∷ [])).appended
unfolding Scripts.run Scripts.step Scripts.load Scripts.start_loading Scripts.on_script_error
    Scripts.settle
run-appends_once_example =
    (run-appends_once youtube true 0 (Scripts.loads ∷ Scripts.script_fails ∷ [])
      (Scripts.loads ∷ Scripts.loads ∷ []) refl).2
