-- ===== src/Engine/Kick/Released.antt =====
-- When apps/web/src/realtime/player/kick-engine.ts lets the room go on.
use youtube_rooms.Prelude.{
  ℕ, ◌≤◌, ◌≡◌, ◌∙◌, refl, Bool, true, false, Option, none, some, List, [], ◌∷◌, arith, is_some,
}
use youtube_rooms.Engine.{count, is_on_ready, once}
use youtube_rooms.Engine.Kick.{
  KickEngine, Event, new, construct, parse_kick, play, pause, set_muted, destroy, on_load,
  on_frame_error, time_out, step, run, is_ready,
}

-- The source is announced once, by a load at the latest; until then the deadline is armed for the
-- iframe, and the iframe is only taken down by destroy.
pub Inv : KickEngine → Type 0
Inv k =
    (count is_on_ready k.events ≡ once k.announced)
    × (k.ready ≡ true → k.announced ≡ true)
    × (is_some k.frame ≡ true → k.announced ≡ false → k.unreachable ≡ true)
    × (is_some k.frame ≡ true → k.destroyed ≡ false)
    × (is_some k.channel ≡ true
        → k.announced ≡ false
        → k.destroyed ≡ false
        → is_some k.frame ≡ true)

step-Inv : (k : KickEngine) (e : Event) → Inv k → Inv (step k e)
unfolding Inv step play pause set_muted destroy on_load on_frame_error time_out
step-Inv k e h = ground arith

run-Inv : (k : KickEngine) (es : List Event) → Inv k → Inv (run k es)
unfolding run
run-Inv k [] h = h
run-Inv k (e ∷ es) h = run-Inv (step k e) es (step-Inv k e h)

construct-Inv : (active : Bool) (channel : Option ℕ) → Inv (construct channel active)
unfolding construct Inv
construct-Inv active none = ground arith
construct-Inv active (some name) = ground arith

step-channel : (k : KickEngine) (e : Event) → is_some (step k e).channel ≡ is_some k.channel
unfolding step play pause set_muted destroy on_load on_frame_error time_out
step-channel k e = ground arith

run-channel : (k : KickEngine) (es : List Event) → is_some (run k es).channel ≡ is_some k.channel
unfolding run
run-channel k [] = refl
run-channel k (e ∷ es) = run-channel (step k e) es ∙ step-channel k e

construct-channel :
    (active : Bool) (channel : Option ℕ)
    → is_some (construct channel active).channel ≡ is_some channel
unfolding construct
construct-channel active none = refl
construct-channel active (some name) = refl

new-Inv : (active : Bool) (url : Option (List ℕ)) (es : List Event) → Inv (run (new active url) es)
unfolding new
new-Inv active url es = run-Inv _ es (construct-Inv active (parse_kick url))

time_out-Released :
    (k : KickEngine)
    → is_some k.channel ≡ true
    → k.destroyed ≡ false
    → Inv k
    → (count is_on_ready (time_out k).events ≡ 1) × (is_ready (time_out k) ≡ true)
unfolding Inv time_out is_ready
time_out-Released k c d h = ground arith

-- Whatever happens, an engine tells the room at most once that its source is ready.
pub count-run :
    (active : Bool) (url : Option (List ℕ)) (es : List Event)
    → count is_on_ready (run (new active url) es).events ≤ 1
unfolding Inv
count-run active url es = ground (arith, new-Inv active url es)

-- The room never waits for an engine of a known channel that was not destroyed: behind the
-- deadline, whatever came before it, onReady was called exactly once and ready answers true.
pub time_out-run :
    (active : Bool) (url : Option (List ℕ)) (es : List Event)
    → is_some (parse_kick url) ≡ true
    → (run (new active url) es).destroyed ≡ false
    → (count is_on_ready (time_out (run (new active url) es)).events ≡ 1)
      × (is_ready (time_out (run (new active url) es)) ≡ true)
unfolding new
time_out-run active url es c d =
    time_out-Released _ (run-channel _ es ∙ construct-channel active (parse_kick url) ∙ c) d
      (new-Inv active url es)
