-- ===== src/Engine/Twitch/Replayed.antt =====
-- The commands that apps/web/src/realtime/player/twitch-engine.ts keeps for its embed.
use youtube_rooms.Prelude.{
  min, ◌≡◌, ◌∙◌, ap, refl, Bool, true, false, Option, none, some, List, [], ◌∷◌, arith,
  if◌then◌else◌,
}
use youtube_rooms.Prelude.Int.{ℤ, pos, pos_part, ltb_ℤ}
use youtube_rooms.Prelude.Text.{Text}
use youtube_rooms.Number.{Number, num}
use youtube_rooms.Engine.Twitch.Renditions.{Quality}
use youtube_rooms.Engine.Twitch.Inner.{
  TwitchCommand, play_embed, pause_embed, seek_embed, set_embed_volume, set_embed_muted, Pending,
  TwitchEngine, new, api_came, api_failed, is_going, start, check, apply_pending, read_qualities,
  adopt,
}
use youtube_rooms.Engine.Twitch.{
  attach, on_embed_ready, begin, on_playing, on_pause, on_end, on_offline, play, pause, seek,
  set_volume, set_muted, set_quality, set_group, destroy, Event, step, run,
}

-- The last wish of each kind; a position counts where it is finite and not negative.
abbrev pub wish_position : Number → Pending → Pending
wish_position (num position) w =
    if ltb_ℤ position (pos 0) then w else record w { position = some position }
wish_position _ w = w

abbrev pub wish : Pending → Event → Pending
wish w (Event.plays paused) = record w { playing = true }
wish w Event.pauses = record w { playing = false }
wish w (Event.seeks seconds length) = wish_position seconds w
wish w (Event.sets_volume volume) = record w { volume = min 1000 (pos_part volume) }
wish w (Event.sets_muted muted) = record w { muted = muted }
wish w _ = w

abbrev pub wish_all : Pending → List Event → Pending
wish_all w [] = w
wish_all w (e ∷ es) = wish_all (wish w e) es

attach-pending : (paused : Option Bool) (t : TwitchEngine) → (attach paused t).pending ≡ t.pending
unfolding attach apply_pending start
attach-pending paused t = ground arith

on_playing-pending :
    (length : Option Number) (options : Option (List Quality)) (t : TwitchEngine)
    → (on_playing length options t).pending ≡ t.pending
unfolding on_playing begin read_qualities adopt
on_playing-pending length options t = ground arith

set_quality-pending :
    (label : Option Text) (t : TwitchEngine) → (set_quality label t).pending ≡ t.pending
unfolding set_quality set_group
set_quality-pending none t = ground arith
set_quality-pending (some label) t = ground arith

step-pending : (t : TwitchEngine) (e : Event) → (step t e).pending ≡ wish t.pending e
unfolding step start check play seek api_came api_failed on_embed_ready on_pause on_end on_offline
    pause set_volume set_muted destroy
step-pending t (Event.gets_ready paused) = ground (arith, attach-pending paused t)
step-pending t (Event.starts length options) = on_playing-pending length options t
step-pending t (Event.seeks (num position) length) = ground arith
step-pending t (Event.seeks _ length) = refl
step-pending t (Event.sets_quality label) = set_quality-pending label t
step-pending t _ = ground arith

run-pending : (t : TwitchEngine) (es : List Event) → (run t es).pending ≡ wish_all t.pending es
unfolding run
run-pending t [] = refl
run-pending t (e ∷ es) = run-pending (step t e) es ∙ ap (λ w. wish_all w es) (step-pending t e)

-- What a new embed is told, newest first.
abbrev pub sought : Option ℤ → List TwitchCommand → List TwitchCommand
sought none cs = cs
sought (some position) cs = seek_embed position ∷ cs

abbrev pub transport : Bool → Option Bool → List TwitchCommand → List TwitchCommand
transport false paused cs = pause_embed ∷ cs
transport true paused cs = if is_going paused then cs else play_embed ∷ cs

abbrev pub replayed : Pending → Option Bool → List TwitchCommand → List TwitchCommand
replayed w paused cs =
    transport w.playing paused
      (sought w.position (set_embed_muted w.muted ∷ set_embed_volume w.volume ∷ cs))

attach-commands :
    (paused : Option Bool) (t : TwitchEngine)
    → (attach paused t).commands ≡ replayed t.pending paused t.commands
unfolding attach apply_pending start
attach-commands paused t = ground arith

on_embed_ready-attach :
    (paused : Option Bool) (t : TwitchEngine)
    → t.constructed ≡ true
    → t.destroyed ≡ false
    → (on_embed_ready paused t).commands ≡ (attach paused t).commands
unfolding on_embed_ready
on_embed_ready-attach paused t c d = ground arith

new-pending :
    (url : Option (List Text))
    → (new url).pending ≡ record { playing = false; position = none; volume = 1000; muted = false }
unfolding new
new-pending url = ground arith

-- Nothing that the room asks for while the embed loads is lost: whatever was called and whatever
-- happened before, an embed that gets ready, for an engine that was not destroyed, is told the last
-- volume, whether the sound is off, the last position that is finite and not negative, where there
-- is one, and then to play where the last of play and pause was play, unless it says that it goes,
-- and to pause otherwise.
pub on_embed_ready-replayed :
    (url : Option (List Text)) (es : List Event) (paused : Option Bool)
    → (run (new url) es).constructed ≡ true
    → (run (new url) es).destroyed ≡ false
    → (on_embed_ready paused (run (new url) es)).commands
      ≡ replayed
          (wish_all (record { playing = false; position = none; volume = 1000; muted = false }) es)
          paused
          (run (new url) es).commands
on_embed_ready-replayed url es paused c d =
    on_embed_ready-attach paused _ c d
    ∙ attach-commands paused _
    ∙ ap (λ w. replayed w paused (run (new url) es).commands)
        (run-pending (new url) es ∙ ap (λ w. wish_all w es) (new-pending url))
