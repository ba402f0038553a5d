-- ===== src/Engine/Scripts/Once.antt =====
-- How often the loaders of the embeds' scripts load, and what becomes of a failure.
use youtube_rooms.Prelude.{
  ℕ, ◌≤◌, ◌≡◌, refl, ap, ◌∙◌, Bool, true, false, Option, none, some, List, [], ◌∷◌, arith,
}
use youtube_rooms.Engine.Scripts.{
  Embed, youtube, twitch, Promise, pending, resolved, rejected, Document, new, start_loading,
  load_at, load, settle, settle_at, on_youtube_ready, on_twitch_load, on_script_error, Event, loads,
  script_ready, script_fails, global_comes, step, run,
}

-- The loader appends its script as it starts, and never again.
abbrev pub Appended : Option Promise → ℕ → Type 0
Appended none n = n ≤ 0
Appended (some p) n = n ≤ 1

load-Appended :
    (d : Document) (p : Option Promise)
    → d.loader ≡ p
    → Appended p d.appended
    → Appended (load_at p d).loader (load_at p d).appended
unfolding start_loading
load-Appended d none e h = ground arith
load-Appended d (some p) e h = ground (arith, e)

settle-Appended :
    (d : Document) (o : Option Promise) (p : Promise)
    → Appended o d.appended
    → Appended (settle_at o p) d.appended
settle-Appended d o p h = ground arith

step-Appended :
    (embed : Embed) (d : Document) (e : Event)
    → Appended d.loader d.appended
    → Appended (step embed d e).loader (step embed d e).appended
unfolding step load on_youtube_ready on_twitch_load on_script_error settle
step-Appended embed d loads h = load-Appended d d.loader refl h
step-Appended youtube d script_ready h = ground (arith, settle-Appended d d.loader)
step-Appended twitch d script_ready h = ground (arith, settle-Appended d d.loader)
step-Appended youtube d script_fails h = ground (arith, settle-Appended d d.loader)
step-Appended twitch d script_fails h = ground (arith, settle-Appended d d.loader)
step-Appended embed d (global_comes b) h = h

run-Appended :
    (embed : Embed) (d : Document) (es : List Event)
    → Appended d.loader d.appended
    → Appended (run embed d es).loader (run embed d es).appended
unfolding run
run-Appended embed d [] h = h
run-Appended embed d (e ∷ es) h = run-Appended embed (step embed d e) es (step-Appended embed d e h)

abbrev pub is_settled : Option Promise → Bool
is_settled none = false
is_settled (some pending) = false
is_settled (some p) = true

step-settled :
    (embed : Embed) (d : Document) (e : Event) (o : Option Promise)
    → d.loader ≡ o
    → is_settled o ≡ true
    → ((step embed d e).loader ≡ d.loader) × ((step embed d e).appended ≡ d.appended)
unfolding step load on_youtube_ready on_twitch_load on_script_error settle
step-settled embed d e none k h = cc
step-settled embed d e (some pending) k h = cc
step-settled embed d e (some resolved) k h = ground (arith, k)
step-settled embed d e (some rejected) k h = ground (arith, k)

run-settled :
    (embed : Embed) (d : Document) (es : List Event)
    → is_settled d.loader ≡ true
    → ((run embed d es).loader ≡ d.loader) × ((run embed d es).appended ≡ d.appended)
unfolding run
run-settled embed d [] h = (refl, refl)
run-settled embed d (e ∷ es) h =
    let (kept, same) = step-settled embed d e d.loader refl h in
    let rest = run-settled embed (step embed d e) es (ap is_settled kept ∙ h) in
    (rest.0 ∙ kept, rest.1 ∙ same)

Appended-le : (o : Option Promise) (n : ℕ) → Appended o n → n ≤ 1
Appended-le o n h = ground arith

-- Once the promise of a loader has settled, in either way: whatever happens after, and however many
-- players ask for it, it stays settled so, no script is appended any more, and at most one was appended
-- in all. So one load that failed is remembered for as long as the document lives.
pub run-appends_once :
    (embed : Embed) (is_browser : Bool) (elements : ℕ) (es later : List Event)
    → is_settled (run embed (new is_browser elements) es).loader ≡ true
    → let d = run embed (new is_browser elements) es in
      ((run embed d later).appended ≤ 1)
      × ((run embed d later).loader ≡ d.loader)
      × ((run embed d later).appended ≡ d.appended)
run-appends_once embed is_browser elements es later h =
    let d = run embed (new is_browser elements) es in
    let first = run-Appended embed (new is_browser elements) es (omega arith) in
    let again = run-Appended embed d later first in
    (
      Appended-le (run embed d later).loader (run embed d later).appended again,
      (run-settled embed d later h).0,
      (run-settled embed d later h).1,
    )
