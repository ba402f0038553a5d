-- ===== src/Engine/Youtube/Length.antt =====
-- What apps/web/src/realtime/player/youtube-engine.ts says of the length of a broadcast.
use youtube_rooms.Prelude.{
  ◌≡◌, ◌∙◌, refl, Bool, true, false, Option, none, some, List, [], ◌∷◌, arith,
}
use youtube_rooms.Number.{Number, num}
use youtube_rooms.Engine.{count, is_on_duration_change}
use youtube_rooms.Engine.Youtube.Player.{Answers, PlayerState}
use youtube_rooms.Engine.Youtube.Inner.{
  YoutubeEngine, api_came, api_failed, start, check, report_duration,
}
use youtube_rooms.Engine.Youtube.{
  on_state_change, on_player_error, play, pause, seek, set_rate, set_volume, set_muted, destroy,
  duration, Event, step, run,
}

-- The player never says that a live broadcast is not live, and is made once, before that.
abbrev pub stays_live : Option Bool → Bool
stays_live (some false) = false
stays_live _ = true

abbrev pub StaysLive : List Event → Type 0
StaysLive [] = Unit
StaysLive (Event.gets_ready a ∷ es) = ⊥
StaysLive (Event.changes_state a ∷ es) = (stays_live a.is_live ≡ true) × StaysLive es
StaysLive (_ ∷ es) = StaysLive es

-- Live, with as many lengths reported as before.
Quiet : YoutubeEngine → YoutubeEngine → Type 0
Quiet y z =
    (z.live ≡ true) × (count is_on_duration_change z.events ≡ count is_on_duration_change y.events)

on_state_change-Quiet :
    (a : Answers) (y : YoutubeEngine)
    → y.live ≡ true
    → stays_live a.is_live ≡ true
    → Quiet y (on_state_change a y)
unfolding Quiet on_state_change report_duration
on_state_change-Quiet a y l s = ground arith

play-Quiet : (state : PlayerState) (y : YoutubeEngine) → y.live ≡ true → Quiet y (play state y)
unfolding Quiet play start
play-Quiet state y l = ground arith

seek-Quiet : (seconds : Number) (y : YoutubeEngine) → y.live ≡ true → Quiet y (seek seconds y)
unfolding Quiet seek
seek-Quiet (num position) y l = ground arith
seek-Quiet Number.pos_inf y l = (l, refl)
seek-Quiet Number.neg_inf y l = (l, refl)
seek-Quiet Number.nan y l = (l, refl)

step-Quiet :
    (y : YoutubeEngine) (e : Event) → y.live ≡ true → StaysLive (e ∷ []) → Quiet y (step y e)
unfolding Quiet step api_came api_failed check on_player_error pause set_rate set_volume set_muted
    destroy
step-Quiet y (Event.gets_ready a) l s = absurd s
step-Quiet y (Event.changes_state a) l s = on_state_change-Quiet a y l s.0
step-Quiet y (Event.seeks n) l s = seek-Quiet n y l
step-Quiet y (Event.plays state) l s = play-Quiet state y l
step-Quiet y _ l s = ground arith

StaysLive-cons :
    (e : Event) (es : List Event) → StaysLive (e ∷ es) → StaysLive (e ∷ []) × StaysLive es
StaysLive-cons (Event.gets_ready a) es s = absurd s
StaysLive-cons (Event.changes_state a) es s = ((s.0, tt), s.1)
StaysLive-cons _ es s = (tt, s)

run-Quiet :
    (y : YoutubeEngine) (es : List Event) → y.live ≡ true → StaysLive es → Quiet y (run y es)
unfolding run Quiet
run-Quiet y [] l s = (l, refl)
run-Quiet y (e ∷ es) l s =
    let one = step-Quiet y e l (StaysLive-cons e es s).0 in
    let rest = run-Quiet (step y e) es one.0 (StaysLive-cons e es s).1 in (rest.0, rest.1 ∙ one.1)

live-duration : (length : Number) (y : YoutubeEngine) → y.live ≡ true → duration length y ≡ none
unfolding duration
live-duration length y l = ground arith

-- Once the engine knows that a broadcast is live, it never reports a length again and answers that
-- it has none, whatever the room calls and whatever window the player gives as its length, as long
-- as the player does not take the broadcast back.
pub run-live :
    (y : YoutubeEngine) (es : List Event) (length : Number)
    → y.live ≡ true
    → StaysLive es
    → (count is_on_duration_change (run y es).events ≡ count is_on_duration_change y.events)
      × (duration length (run y es) ≡ none)
unfolding Quiet
run-live y es length l s =
    let quiet = run-Quiet y es l s in (quiet.1, live-duration length (run y es) quiet.0)
