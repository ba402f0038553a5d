-- ===== src/Engine/Youtube/Replayed.antt =====
-- The commands that apps/web/src/realtime/player/youtube-engine.ts keeps for its player.
use youtube_rooms.Prelude.{
  ℕ, ◌≡◌, ◌∙◌, ap, refl, Bool, true, false, ◌||◌, Option, none, some, List, [], ◌∷◌, arith,
  if◌then◌else◌,
}
use youtube_rooms.Prelude.Int.{ℤ, pos, ltb_ℤ}
use youtube_rooms.Number.{Number, num}
use youtube_rooms.Engine.Youtube.Player.{
  PlayerState, is_playing, is_buffering, cc_module, captions_module, PlayerCommand, play_video,
  pause_video, fill_container, seek_to, set_playback_rate, unload_module, Answers,
}
use youtube_rooms.Engine.Youtube.Inner.{
  Pending, YoutubeEngine, new, api_came, api_failed, start, check, seek_pending, apply_pending,
  report_duration, tell_duration,
}
use youtube_rooms.Engine.Youtube.{
  announce, attach, on_player_ready, on_state_change, on_player_error, play, pause, seek, set_rate,
  set_volume, set_muted, destroy, Event, step, run,
}

-- The last wish of each kind; a position counts where it is finite and not negative.
abbrev pub wish_position : Number → Pending → Pending
wish_position (num position) w =
    if ltb_ℤ position (pos 0) then w else record w { position = some position }
wish_position _ w = w

abbrev pub wish : Pending → Event → Pending
wish w (Event.plays state) = record w { playing = true }
wish w Event.pauses = record w { playing = false }
wish w (Event.seeks seconds) = wish_position seconds w
wish w (Event.sets_rate rate) = record w { rate = rate }
wish w _ = w

abbrev pub wish_all : Pending → List Event → Pending
wish_all w [] = w
wish_all w (e ∷ es) = wish_all (wish w e) es

start-pending : (state : PlayerState) (y : YoutubeEngine) → (start state y).pending ≡ y.pending
unfolding start
start-pending state y = ground arith

seek_pending-pending : (p : Option ℤ) (y : YoutubeEngine) → (seek_pending p y).pending ≡ y.pending
unfolding seek_pending
seek_pending-pending none y = refl
seek_pending-pending (some position) y = refl

apply_pending-pending :
    (state : PlayerState) (y : YoutubeEngine) → (apply_pending state y).pending ≡ y.pending
unfolding apply_pending
apply_pending-pending state y = grind (arith, start-pending, seek_pending-pending)

tell_duration-pending : (d : Option ℤ) (y : YoutubeEngine) → (tell_duration d y).pending ≡ y.pending
unfolding tell_duration
tell_duration-pending none y = refl
tell_duration-pending (some seconds) y = refl

report_duration-pending :
    (length : Number) (y : YoutubeEngine) → (report_duration length y).pending ≡ y.pending
unfolding report_duration
report_duration-pending length y = grind (arith, tell_duration-pending)

announce-pending : (a : Answers) (y : YoutubeEngine) → (announce a y).pending ≡ y.pending
unfolding announce
announce-pending a y = grind (arith, report_duration-pending)

attach-pending : (a : Answers) (y : YoutubeEngine) → (attach a y).pending ≡ y.pending
unfolding attach
attach-pending a y = announce-pending a _ ∙ apply_pending-pending a.state _

on_player_ready-pending :
    (a : Answers) (y : YoutubeEngine) → (on_player_ready a y).pending ≡ y.pending
unfolding on_player_ready
on_player_ready-pending a y = ground (arith, attach-pending a y)

on_state_change-pending :
    (a : Answers) (y : YoutubeEngine) → (on_state_change a y).pending ≡ y.pending
unfolding on_state_change
on_state_change-pending a y = grind (arith, report_duration-pending)

seek-pending : (n : Number) (y : YoutubeEngine) → (seek n y).pending ≡ wish_position n y.pending
unfolding seek
seek-pending (num position) y = ground arith
seek-pending Number.pos_inf y = refl
seek-pending Number.neg_inf y = refl
seek-pending Number.nan y = refl

play-pending :
    (state : PlayerState) (y : YoutubeEngine)
    → (play state y).pending ≡ record y.pending { playing = true }
unfolding play
play-pending state y =
    start-pending state (record y { pending = record y.pending { playing = true } })

step-pending : (y : YoutubeEngine) (e : Event) → (step y e).pending ≡ wish y.pending e
unfolding step api_came api_failed check on_player_error pause set_rate set_volume set_muted destroy
step-pending y (Event.gets_ready a) = on_player_ready-pending a y
step-pending y (Event.changes_state a) = on_state_change-pending a y
step-pending y (Event.seeks n) = seek-pending n y
step-pending y (Event.plays state) = play-pending state y
step-pending y _ = ground arith

-- Whatever the room and the player do, the pending commands are the last of each kind.
run-pending : (y : YoutubeEngine) (es : List Event) → (run y es).pending ≡ wish_all y.pending es
unfolding run
run-pending y [] = refl
run-pending y (e ∷ es) = run-pending (step y e) es ∙ ap (λ w. wish_all w es) (step-pending y e)

-- What a new player is told, newest first.
abbrev pub sought : Option ℤ → List PlayerCommand → List PlayerCommand
sought none cs = cs
sought (some position) cs = seek_to position ∷ cs

abbrev pub transport : Bool → PlayerState → List PlayerCommand → List PlayerCommand
transport false state cs = pause_video ∷ cs
transport true state cs = if is_playing state || is_buffering state then cs else play_video ∷ cs

abbrev pub replayed : Pending → PlayerState → List PlayerCommand → List PlayerCommand
replayed w state cs = transport w.playing state (
    sought w.position (
      set_playback_rate w.rate
      ∷ unload_module captions_module
      ∷ unload_module cc_module
      ∷ fill_container
      ∷ cs))

start-commands :
    (state : PlayerState) (y : YoutubeEngine)
    → y.player ≡ true
    → (start state y).commands ≡ transport true state y.commands
unfolding start
start-commands state y p = ground arith

seek_pending-lem :
    (p : Option ℤ) (y : YoutubeEngine)
    → ((seek_pending p y).commands ≡ sought p y.commands) × ((seek_pending p y).player ≡ y.player)
unfolding seek_pending
seek_pending-lem none y = (refl, refl)
seek_pending-lem (some position) y = (refl, refl)

apply_pending-commands :
    (state : PlayerState) (y : YoutubeEngine)
    → y.player ≡ true
    → (apply_pending state y).commands
      ≡ transport y.pending.playing state
          (sought y.pending.position (set_playback_rate y.pending.rate ∷ y.commands))
unfolding apply_pending
apply_pending-commands state y p = grind (arith, start-commands, seek_pending-lem)

tell_duration-commands :
    (d : Option ℤ) (y : YoutubeEngine) → (tell_duration d y).commands ≡ y.commands
unfolding tell_duration
tell_duration-commands none y = refl
tell_duration-commands (some seconds) y = refl

announce-commands : (a : Answers) (y : YoutubeEngine) → (announce a y).commands ≡ y.commands
unfolding announce report_duration
announce-commands a y = grind (arith, tell_duration-commands)

attach-commands :
    (a : Answers) (y : YoutubeEngine)
    → (attach a y).commands ≡ replayed y.pending a.state y.commands
unfolding attach
attach-commands a y = announce-commands a _ ∙ apply_pending-commands a.state _ refl

on_player_ready-attach :
    (a : Answers) (y : YoutubeEngine)
    → y.constructed ≡ true
    → y.destroyed ≡ false
    → (on_player_ready a y).commands ≡ (attach a y).commands
unfolding on_player_ready
on_player_ready-attach a y c d = ground arith

-- Whatever was called and whatever happened before, a player that gets ready, for an engine that was not
-- destroyed, is told of the rate, the position and the transport, and of nothing else that was asked
-- for, such as a volume or a mute: the last rate, the last position that is finite and not negative,
-- where there is one, and then to play where the last of play and pause was play, unless it plays or
-- buffers already, and to pause otherwise.
pub on_player_ready-replayed :
    (video_id : ℕ) (es : List Event) (a : Answers)
    → (run (new (some video_id)) es).constructed ≡ true
    → (run (new (some video_id)) es).destroyed ≡ false
    → (on_player_ready a (run (new (some video_id)) es)).commands
      ≡ replayed
          (wish_all (record { playing = false; position = none; rate = 4 }) es)
          a.state
          (run (new (some video_id)) es).commands
unfolding new
on_player_ready-replayed video_id es a c d =
    on_player_ready-attach a _ c d
    ∙ attach-commands a _
    ∙ ap (λ w. replayed w a.state (run (new (some video_id)) es).commands)
        (run-pending (new (some video_id)) es)
