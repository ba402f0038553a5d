-- ===== src/Engine/Kick/Shown.antt =====
-- What the iframe of apps/web/src/realtime/player/kick-engine.ts shows, against what was asked.
use youtube_rooms.Prelude.{
  ℕ, ◌≡◌, refl, Bool, true, false, not, ◌&&◌, Option, none, some, List, [], ◌∷◌, arith,
  if◌then◌else◌, is_some,
}
use youtube_rooms.Engine.Kick.{
  KickEngine, Event, new, construct, parse_kick, play, pause, set_muted, destroy, on_load,
  on_frame_error, time_out, step, run,
}

-- What the room asked for: the last of its calls of each kind.
pub record Wish : Type 0 where
  pub playing : Bool
  pub muted : Bool
  pub destroyed : Bool

abbrev pub ask : Wish → Event → Wish
ask w Event.plays = record w { playing = true }
ask w Event.pauses = record w { playing = false }
ask w (Event.sets_muted muted) = record w { muted = muted }
ask w Event.destroys = record w { destroyed = true }
ask w _ = w

abbrev pub ask_all : Wish → List Event → Wish
ask_all w [] = w
ask_all w (e ∷ es) = ask_all (ask w e) es

-- A channel that is asked for is shown, with the sound as asked, and nothing else is.
abbrev pub shown : Bool → Wish → Option Bool
shown has_channel w = if has_channel && w.playing && not w.destroyed then some w.muted else none

abbrev pub Shows : Bool → Wish → KickEngine → Type 0
Shows has_channel w k =
    (is_some k.channel ≡ has_channel)
    × (k.playing ≡ w.playing)
    × (k.muted ≡ w.muted)
    × (k.destroyed ≡ w.destroyed)
    × (k.frame ≡ shown has_channel w)

step-Shows :
    (c : Bool) (w : Wish) (k : KickEngine) (e : Event) → Shows c w k → Shows c (ask w e) (step k e)
unfolding step play pause set_muted destroy on_load on_frame_error time_out
step-Shows c w k e h = ground arith

run-Shows :
    (c : Bool) (w : Wish) (k : KickEngine) (es : List Event)
    → Shows c w k
    → Shows c (ask_all w es) (run k es)
unfolding run
run-Shows c w k [] h = h
run-Shows c w k (e ∷ es) h = run-Shows c (ask w e) (step k e) es (step-Shows c w k e h)

abbrev pub first_wish : Bool → Option ℕ → Wish
first_wish active channel = record {
  playing = is_some channel;
  muted = not active;
  destroyed = false;
}

construct-Shows :
    (active : Bool) (channel : Option ℕ)
    → Shows (is_some channel) (first_wish active channel) (construct channel active)
unfolding construct
construct-Shows active none = (refl, refl, refl, refl, refl)
construct-Shows active (some name) = (refl, refl, refl, refl, refl)

-- After any calls of the room and any events of the browser, the embed is in the page exactly where
-- the channel is known, the last of play and pause was play, and destroy was not called; and its
-- address has the sound that was last asked for.
pub run-frame :
    (active : Bool) (url : Option (List ℕ)) (es : List Event)
    → (run (new active url) es).frame
      ≡ shown (is_some (parse_kick url)) (ask_all (first_wish active (parse_kick url)) es)
unfolding new
run-frame active url es =
    (run-Shows (is_some (parse_kick url)) (first_wish active (parse_kick url))
      (construct (parse_kick url) active) es (construct-Shows active (parse_kick url))).4
