-- ===== src/Shortcuts.antt =====
-- apps/web/src/hooks/use-room-shortcuts.ts: what a key of the room's page does.
pub mod Permission
use youtube_rooms.Prelude.{
  ℕ, ◌+◌, ◌-◌, ◌*◌, ◌/◌, Bool, true, false, not, ◌||◌, ◌&&◌, Option, none, some, List, [], ◌∷◌, ltb,
  if◌then◌else◌, is_some,
}
use youtube_rooms.Units.{ms_position}
use youtube_rooms.Protocol.Primitives.{Permissions}
use youtube_rooms.Protocol.Client.{
  SyncAction, play, pause, next, previous, seek, ClientMessage, sync_intent,
}
use youtube_rooms.Timeline.{Timeline, position_at}
use youtube_rooms.Clock.{ClockEstimator, server_now}

-- `event.key`; a letter stands for both of its cases, and `toggle` for a blank and for k.
pub data Key : Type 0 where
  digit : ℕ → Key
  toggle arrow_right arrow_left key_l key_j key_n key_p : Key
  key_m key_f key_t key_c key_q key_u slash question other_key : Key

-- A KeyboardEvent; `typing` is isTypingTarget of its target.
pub record KeyPress : Type 0 where
  pub ctrl : Bool
  pub meta : Bool
  pub alt : Bool
  pub shift : Bool
  pub typing : Bool
  pub key : Key

-- What the hook holds; the clock is that of the socket, where there is one.
pub record Room : Type 0 where
  pub clock : Option ClockEstimator
  pub timeline : Option Timeline
  pub permissions : Option Permissions
  pub engine : Bool

pub data Panel : Type 0 where
  chat queue people : Panel

-- The calls of the engine and of the actions.
pub data Local : Type 0 where
  mutes requests_fullscreen toggles_theatre focuses_chat focuses_search toggles_help : Local
  shows_panel : Panel → Local

-- What a press leads to: the message that is sent, whether the browser's own action is prevented,
-- and what is called, in order.
pub record Outcome : Type 0 where
  pub sent : Option ClientMessage
  pub prevented : Bool
  pub local : List Local

abbrev pub seek_small_ms : ℕ
seek_small_ms = 5000

abbrev pub seek_large_ms : ℕ
seek_large_ms = 10000

abbrev pub nothing : Outcome
nothing = record { sent = none; prevented = false; local = [] }

abbrev pub can_control : Room → Bool
can_control room = elim room.permissions [ none ↦ false | some p ↦ p.can_control_playback ]

-- intent: the message, where one is sent.
unfoldable pub intent : SyncAction → Room → Option ClientMessage
intent action room = elim room.clock [
  | none ↦ none
  | some clock ↦ (elim room.timeline [
    | none ↦ none
    | some tl ↦
        if not (can_control room) || not (is_some tl.source)
        then none
        else some (sync_intent action tl.version)
  ])
]

-- seekBy, forwards or backwards; the subtraction stops at 0 like the source's Math.max.
unfoldable pub seek_by : Bool → ℕ → ℕ → Room → Option ClientMessage
seek_by forwards distance_ms now room = elim room.timeline [
  | none ↦ none
  | some tl ↦ (elim room.clock [
    | none ↦ none
    | some clock ↦
        let from = position_at tl (server_now clock now) in
        intent
          (seek
            (if forwards then from + ms_position distance_ms else from - ms_position distance_ms))
          room
  ])
]

-- A message, and the browser's own action prevented where one was sent.
abbrev pub swallow : Option ClientMessage → Outcome
swallow sent = record { sent = sent; prevented = is_some sent; local = [] }

abbrev pub asks : Option ClientMessage → Outcome
asks sent = record { sent = sent; prevented = false; local = [] }

abbrev pub acts : Bool → List Local → Outcome
acts prevented local = record { sent = none; prevented = prevented; local = local }

-- A digit, which stands for as many tenths of the length, rounded down to the grid.
unfoldable pub scrub : ℕ → Room → Outcome
scrub n room = elim room.timeline [
  | none ↦ nothing
  | some tl ↦ (elim tl.duration [
    | none ↦ nothing
    | some length ↦ if ltb 0 length then swallow (intent (seek (length * n / 10)) room) else nothing
  ])
]

abbrev pub is_paused : Room → Bool
is_paused room = elim room.timeline [ none ↦ false | some tl ↦ tl.paused ]

-- The keys.
unfoldable pub on_key : Key → Bool → ℕ → Room → Outcome
on_key (digit n) shift now room = if shift then nothing else scrub n room
on_key toggle shift now room = record {
  sent = intent (if is_paused room then play else pause) room;
  prevented = true;
  local = [];
}
on_key arrow_right shift now room = swallow (seek_by true seek_small_ms now room)
on_key arrow_left shift now room = swallow (seek_by false seek_small_ms now room)
on_key key_l shift now room = asks (seek_by true seek_large_ms now room)
on_key key_j shift now room = asks (seek_by false seek_large_ms now room)
on_key key_n shift now room = asks (intent next room)
on_key key_p shift now room = asks (intent previous room)
on_key key_m shift now room = acts false (if room.engine then mutes ∷ [] else [])
on_key key_f shift now room = acts false (requests_fullscreen ∷ [])
on_key key_t shift now room = acts false (toggles_theatre ∷ [])
on_key key_c shift now room = acts true (shows_panel chat ∷ focuses_chat ∷ [])
on_key key_q shift now room = acts false (shows_panel queue ∷ [])
on_key key_u shift now room = acts false (shows_panel people ∷ [])
on_key slash shift now room = acts true (shows_panel queue ∷ focuses_search ∷ [])
on_key question shift now room = acts true (toggles_help ∷ [])
on_key other_key shift now room = nothing

-- onKeyDown
unfoldable pub on_key_down : KeyPress → ℕ → Room → Outcome
on_key_down press now room =
    if press.ctrl || press.meta || press.alt || press.typing
    then nothing
    else on_key press.key press.shift now room
