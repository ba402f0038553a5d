-- ===== src/Engine/Scripts.antt =====
-- The loaders of the embeds' scripts: loadYouTubeApi of apps/web/src/realtime/youtube.ts and
-- loadTwitchEmbed of apps/web/src/realtime/player/twitch-engine.ts.
--
-- The document, the globals that a script sets and the script's events are the browser's: they are
-- fields and events here. A promise settles once; what it is settled to later is ignored.
pub mod Once
use youtube_rooms.Prelude.{
  ℕ, suc, Bool, true, false, Option, none, some, List, [], ◌∷◌, leb, if◌then◌else◌,
}

pub data Embed : Type 0 where
  youtube twitch : Embed

pub data Promise : Type 0 where
  pending resolved rejected : Promise

-- The document and the module's `loader`: whether there is a window, whether the global is there and
-- has its Player, the script's elements, how many of them the loader appended, and whether it waits for
-- the script, by the global callback or by listeners.
pub record Document : Type 0 where
  pub is_browser : Bool
  pub has_global : Bool
  pub has_player : Bool
  pub elements : ℕ
  pub appended : ℕ
  pub hooked : Bool
  pub loader : Option Promise

-- A document before the first call, with the elements that other code has put there.
abbrev pub new : Bool → ℕ → Document
new is_browser elements = record {
  is_browser = is_browser;
  has_global = false;
  has_player = false;
  elements = elements;
  appended = 0;
  hooked = false;
  loader = none;
}

-- The body of the promise, which both loaders share: they differ in what they wait by.
unfoldable pub start_loading : Document → Document
start_loading d =
    if d.is_browser
    then (if d.has_player
        then record d { loader = some resolved }
        else if leb 1 d.elements
        then record d { loader = some pending; hooked = true }
        else record d {
          loader = some pending;
          hooked = true;
          elements = suc d.elements;
          appended = suc d.appended;
        })
    else record d { loader = some rejected }

abbrev pub load_at : Option Promise → Document → Document
load_at none d = start_loading d
load_at (some p) d = d

-- loadYouTubeApi and loadTwitchEmbed
unfoldable pub load : Document → Document
load d = load_at d.loader d

abbrev pub settle_at : Option Promise → Promise → Option Promise
settle_at (some pending) p = some p
settle_at other p = other

-- resolve and reject
unfoldable pub settle : Promise → Document → Document
settle p d = record d { loader = settle_at d.loader p }

-- onYouTubeIframeAPIReady, which wants the global; the listener of `load`, which wants its Player.
unfoldable pub on_youtube_ready : Document → Document
unfolding settle
on_youtube_ready d = if d.hooked then settle (if d.has_global then resolved else rejected) d else d

unfoldable pub on_twitch_load : Document → Document
unfolding settle
on_twitch_load d = if d.hooked then settle (if d.has_player then resolved else rejected) d else d

-- The script's error: YouTube's handler stands on the element that the loader appended.
unfoldable pub on_script_error : Embed → Document → Document
unfolding settle
on_script_error youtube d = if leb 1 d.appended then settle rejected d else d
on_script_error twitch d = if d.hooked then settle rejected d else d

pub data Event : Type 0 where
  loads script_ready script_fails : Event
  global_comes : Bool → Event

unfoldable pub step : Embed → Document → Event → Document
step embed d loads = load d
step youtube d script_ready = on_youtube_ready d
step twitch d script_ready = on_twitch_load d
step embed d script_fails = on_script_error embed d
step embed d (global_comes has_player) = record d { has_global = true; has_player = has_player }

unfoldable pub run : Embed → Document → List Event → Document
run embed d [] = d
run embed d (e ∷ es) = run embed (step embed d e) es
