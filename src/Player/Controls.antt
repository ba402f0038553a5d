-- ===== src/Player/Controls.antt =====
-- The controls of apps/web/src/components/room/player.tsx: which of them work, and what they do.
use youtube_rooms.Prelude.{
  ℕ, ◌+◌, ◌-◌, min, Bool, true, false, not, ◌||◌, ◌&&◌, Option, none, some, List, [], ◌∷◌, ◌==◌,
  ltb, leb, if◌then◌else◌, is_some, length, any,
}
use youtube_rooms.Prelude.Text.{Text, same_text}
use youtube_rooms.Prelude.Int.{ℤ}
use youtube_rooms.Units.{ms_position}
use youtube_rooms.Protocol.Client.{
  SyncAction, play, pause, next, previous, restart, seek, set_rate, set_loop, sync_intent,
}
use youtube_rooms.Engine.{EngineEvent}
use youtube_rooms.Player.View.{
  EngineCall, play_engine, set_engine_volume, set_engine_muted, set_engine_quality, Room, Player,
  source_of, can_control, live, paused, duration, has_volume, send_to, render, on_engine, update,
  wake, idle, visible,
}

-- send
unfoldable pub send : SyncAction → Room → Player → Player
send action room p = elim room.timeline [
  | none ↦ p
  | some tl ↦ send_to room.socket (sync_intent action tl.version) p
]

-- toggle
unfoldable pub toggle : Room → Player → Player
toggle room p =
    if not (can_control room) then p else send (if paused room then play else pause) room p

-- SKIP
abbrev pub skip_ms : ℕ
skip_ms = 10000

abbrev pub ceiling : Option ℕ → ℕ → ℕ
ceiling none reach = reach
ceiling (some d) reach = d

-- Where a jump leads; the subtraction stops at 0 like the source's Math.max.
abbrev pub jump : Bool → ℕ → Option ℕ → ℕ → ℕ
jump true distance end position = min (position + distance) (ceiling end (position + distance))
jump false distance end position = min (position - distance) (ceiling end (position + distance))

-- seekBy
unfoldable pub seek_by : Bool → ℕ → Room → Player → Player
seek_by forwards distance room p =
    if not (can_control room)
    then p
    else send (seek (jump forwards distance (duration room) p.position)) room p

-- `engine?.`
abbrev pub call : EngineCall → Player → Player
call c p = if is_some p.engine then record p { calls = c ∷ p.calls } else p

-- applyVolume
unfoldable pub apply_volume : ℕ → Player → Player
apply_volume level p =
    let silent = level == 0 in
    let told =
      call (set_engine_muted silent)
        (call (set_engine_volume level) (record p { volume = level; muted = silent })) in
    if silent then told else record told { audio_blocked = false }

-- toggleMute
unfoldable pub toggle_mute : Player → Player
toggle_mute p =
    let silent = not p.muted in
    let told = call (set_engine_muted silent) (record p { muted = silent }) in
    if silent then told else record told { audio_blocked = false }

-- restoreAudio
unfoldable pub restore_audio : Player → Player
restore_audio p =
    let level = if p.volume == 0 then 20 else p.volume in
    call play_engine (
      call (set_engine_muted false) (
        call (set_engine_volume level)
          (record p { audio_blocked = false; muted = false; volume = level })))

-- applyQuality
unfoldable pub apply_quality : Option Text → Player → Player
apply_quality chosen p = call (set_engine_quality chosen) (record p { quality = chosen })

-- What the viewer can touch: the picture by a click with its detail or by a finger, the buttons, the
-- sliders with their values, the menus. The first field of a sound control is VolumeControl's
-- `compact`.
pub data Control : Type 0 where
  picture_click : ℕ → Control
  picture_tap play_button back_button forward_button previous_button next_button : Control
  loop_button restart_item skip_button unmute_button : Control
  scrubs commits : ℕ → Control
  sound_button : Bool → Control
  volume_slider : Bool → ℕ → Control
  rate_item : ℕ → Control
  quality_item : Option Text → Control

abbrev pub is_offered : Option Text → List Text → Bool
is_offered none menu = true
is_offered (some label) menu = any (same_text label) menu

-- RATES, in quarters.
abbrev pub rates : List ℕ
rates = 1 ∷ 2 ∷ 3 ∷ 4 ∷ 5 ∷ 6 ∷ 7 ∷ 8 ∷ []

-- Whether a control is in the page and not disabled. A hidden bar can still be reached by the keys.
unfoldable pub enabled : Control → Room → Player → Bool
enabled (Control.picture_click detail) room p = can_control room
enabled Control.picture_tap room p = true
enabled Control.play_button room p = can_control room
enabled Control.back_button room p = can_control room && not (live room p)
enabled Control.forward_button room p = can_control room && not (live room p)
enabled Control.previous_button room p = can_control room
enabled Control.next_button room p = can_control room
enabled Control.loop_button room p = can_control room
enabled Control.restart_item room p = can_control room
enabled Control.skip_button room p = is_some p.error && can_control room
enabled Control.unmute_button room p = p.audio_blocked && not (paused room)
enabled (Control.scrubs value) room p =
    not (live room p) && can_control room && is_some (duration room)
enabled (Control.commits value) room p =
    not (live room p)
    && can_control room
    && (elim (duration room) [ none ↦ false | some d ↦ leb value d ])
enabled (Control.sound_button compact) room p = true
enabled (Control.volume_slider compact level) room p =
    has_volume room && (not compact || p.volume_open) && leb level 20
enabled (Control.rate_item quarters) room p =
    not (live room p) && any (λ (r : ℕ). r == quarters) rates
enabled (Control.quality_item chosen) room p =
    ltb 1 (length p.qualities) && is_offered chosen p.qualities

-- The handler of a control.
unfoldable pub act : Control → Room → Player → Player
act (Control.picture_click detail) room p = if detail == 0 then p else toggle room p
act Control.picture_tap room p = if not (visible room p) then wake true p else toggle room p
act Control.play_button room p = toggle room p
act Control.back_button room p = seek_by false (ms_position skip_ms) room p
act Control.forward_button room p = seek_by true (ms_position skip_ms) room p
act Control.previous_button room p = send previous room p
act Control.next_button room p = send next room p
act Control.loop_button room p = elim room.timeline [
  | none ↦ p
  | some tl ↦ send (set_loop (not tl.loop)) room p
]
act Control.restart_item room p = send restart room p
act Control.skip_button room p = send next room p
act Control.unmute_button room p = restore_audio p
act (Control.scrubs value) room p = record p { scrub = some value }
act (Control.commits value) room p = send (seek value) room (record p { scrub = none })
act (Control.sound_button compact) room p =
    if compact && has_volume room
    then record p { volume_open = not p.volume_open }
    else toggle_mute p
act (Control.volume_slider compact level) room p = apply_volume level p
act (Control.rate_item quarters) room p = send (set_rate quarters) room p
act (Control.quality_item chosen) room p = apply_quality chosen p

-- IdlePlayer, without a source, has no control.
unfoldable pub press : Control → Room → Player → Player
press control room p =
    if is_some (source_of room) && enabled control room p then act control room p else p

-- What happens to the player: a render with what the hooks now give, a call of the engine, the
-- ticks of its timers, a pointer over it, a control.
pub data Event : Type 0 where
  renders : Room → Event
  hears : EngineEvent → List Text → Option Text → Event
  ticks : ℤ → Event
  idles opens_volume closes_volume : Event
  points : Bool → Event
  presses : Control → Event

-- The player in its room.
pub record Stage : Type 0 where
  pub room : Room
  pub player : Player

unfoldable pub step : Stage → Event → Stage
step s (Event.renders room) = record { room = room; player = render s.room room s.player }
step s (Event.hears e menu chosen) = record s { player = on_engine s.room menu chosen e s.player }
step s (Event.ticks now) = record s { player = update now s.room s.player }
step s Event.idles = record s { player = idle s.player }
step s Event.opens_volume = record s { player = record s.player { volume_open = true } }
step s Event.closes_volume = record s { player = record s.player { volume_open = false } }
step s (Event.points active) = record s { player = wake active s.player }
step s (Event.presses control) = record s { player = press control s.room s.player }

unfoldable pub run : Stage → List Event → Stage
run s [] = s
run s (e ∷ es) = run (step s e) es
