-- ===== src/Engine/Kick.antt =====
-- apps/web/src/realtime/player/kick-engine.ts: the adapter that rebuilds its iframe.
--
-- The methods, the listeners of the iframe and the deadline are the events of a state machine. An
-- iframe that was removed has no listener that runs.
pub mod Shown
pub mod Released
use youtube_rooms.Prelude.{
  ℕ, Bool, true, false, not, ◌||◌, ◌&&◌, Option, none, some, List, [], ◌∷◌, ◌==◌, if◌then◌else◌,
  is_some, filter,
}
use youtube_rooms.Engine.{
  EngineEvent, on_ready, on_audio_blocked, on_error, on_buffering_change, not_a_channel,
  kick_unreachable, kick_not_loaded,
}

abbrev pub reachable_ms : ℕ
reachable_ms = 12000

-- The private fields. A channel is a name, `none` the empty one; the iframe is the value of `muted`
-- in its address; `unreachable` says that the deadline is armed.
pub record KickEngine : Type 0 where
  pub channel : Option ℕ
  pub frame : Option Bool
  pub destroyed : Bool
  pub ready : Bool
  pub announced : Bool
  pub unreachable : Bool
  pub playing : Bool
  pub muted : Bool
  pub events : List EngineEvent

abbrev pub tell : EngineEvent → KickEngine → KickEngine
tell e k = record k { events = e ∷ k.events }

only_segment : List ℕ → Option ℕ
only_segment (segment ∷ []) = some segment
only_segment _ = none

-- parseKick, of the segments of the path, the empty text being 0; `none` is an address that does
-- not parse.
unfoldable pub parse_kick : Option (List ℕ) → Option ℕ
unfolding only_segment
parse_kick none = none
parse_kick (some segments) = only_segment (filter (λ s. not (s == 0)) segments)

-- #clearUnreachable
abbrev pub clear_unreachable : KickEngine → KickEngine
clear_unreachable k = record k { unreachable = false }

-- #teardown
abbrev pub teardown : KickEngine → KickEngine
teardown k = record (clear_unreachable k) { frame = none }

-- #mount, up to the listeners.
abbrev pub mount : KickEngine → KickEngine
mount k =
    if k.destroyed || not (is_some k.channel)
    then k
    else record (teardown k) { unreachable = true; frame = some k.muted }

-- The announcement that three places make once.
abbrev pub announce : KickEngine → KickEngine
announce k = if k.announced then k else tell on_ready (record k { announced = true })

abbrev pub blank : Bool → KickEngine
blank active = record {
  channel = none;
  frame = none;
  destroyed = false;
  ready = false;
  announced = false;
  unreachable = false;
  playing = false;
  muted = not active;
  events = [];
}

construct : Option ℕ → Bool → KickEngine
construct none active = tell (on_error not_a_channel) (blank active)
construct (some name) active = mount (record (blank active) { channel = some name; playing = true })

-- The constructor; `active` is the page's user activation.
unfoldable pub new : Bool → Option (List ℕ) → KickEngine
unfolding construct
new active url = construct (parse_kick url) active

-- The deadline.
unfoldable pub time_out : KickEngine → KickEngine
time_out k =
    if not k.unreachable
    then k
    else if k.destroyed || k.ready
    then clear_unreachable k
    else tell (on_error kick_unreachable) (announce (clear_unreachable k))

-- The listener of `load`.
unfoldable pub on_load : KickEngine → KickEngine
on_load k =
    if k.destroyed || not (is_some k.frame)
    then k
    else let told =
        announce
          (tell (on_buffering_change false) (record (clear_unreachable k) { ready = true })) in
      if told.muted then tell on_audio_blocked told else told

-- The listener of `error`.
unfoldable pub on_frame_error : KickEngine → KickEngine
on_frame_error k = if is_some k.frame then tell (on_error kick_not_loaded) k else k

-- play
unfoldable pub play : KickEngine → KickEngine
play k =
    if k.playing && is_some k.frame
    then k
    else mount (tell (on_buffering_change true) (record k { playing = true }))

-- pause
unfoldable pub pause : KickEngine → KickEngine
pause k =
    if not k.playing
    then k
    else tell (on_buffering_change false)
        (record (teardown (announce (record k { playing = false }))) { ready = false })

-- setMuted
unfoldable pub set_muted : Bool → KickEngine → KickEngine
set_muted true k =
    if k.muted
    then k
    else let set = record k { muted = true } in if k.playing then mount set else set
set_muted false k =
    if k.muted
    then (let set = record k { muted = false } in if k.playing then mount set else set)
    else k

-- destroy
unfoldable pub destroy : KickEngine → KickEngine
destroy k = teardown (record k { destroyed = true })

-- buffering and ready
unfoldable pub buffering : KickEngine → Bool
buffering k = k.playing && not k.ready

unfoldable pub is_ready : KickEngine → Bool
is_ready k = k.announced || k.ready

-- The calls of the room, and what the browser brings. seek, setRate and setVolume do nothing.
pub data Event : Type 0 where
  plays pauses seeks sets_rate sets_volume destroys : Event
  sets_muted : Bool → Event
  loads fails times_out : Event

unfoldable pub step : KickEngine → Event → KickEngine
step k Event.plays = play k
step k Event.pauses = pause k
step k (Event.sets_muted muted) = set_muted muted k
step k Event.destroys = destroy k
step k Event.loads = on_load k
step k Event.fails = on_frame_error k
step k Event.times_out = time_out k
step k _ = k

unfoldable pub run : KickEngine → List Event → KickEngine
run k [] = k
run k (e ∷ es) = run (step k e) es
