-- ===== src/Player/View.antt =====
-- The state of apps/web/src/components/room/player.tsx and what changes it but the controls: the
-- effect that builds the engine, the functions that the engine calls, and the bar that hides.
--
-- Positions are on the grid of positions, volumes in twentieths, the step of the slider. The messages
-- and the calls of the engine are logs, newest first.
use youtube_rooms.Prelude.{
  ℕ, ◌++◌, Bool, true, false, ◌||◌, ◌&&◌, Option, none, some, List, [], ◌∷◌, ◌==◌, if◌then◌else◌,
  is_some,
}
use youtube_rooms.Prelude.Int.{ℤ}
use youtube_rooms.Prelude.Text.{Text, codes, same_text}
use youtube_rooms.Protocol.Primitives.{
  Permissions, SourceKind, youtube, file, hls, dash, twitch, kick, MediaSource, may_be_live,
  QueueItem,
}
use youtube_rooms.Protocol.Client.{ClientMessage, playback_ready, report_duration}
use youtube_rooms.Timeline.{Timeline, position_at}
use youtube_rooms.Engine.{
  Failure, EngineEvent, on_ready, on_live, on_qualities_change, on_audio_blocked,
  on_duration_change, on_error, on_buffering_change,
}

pub data EngineKind : Type 0 where
  youtube_engine twitch_engine kick_engine media_engine : EngineKind

-- The calls of the engine that is in place.
pub data EngineCall : Type 0 where
  play_engine : EngineCall
  set_engine_volume : ℕ → EngineCall
  set_engine_muted : Bool → EngineCall
  set_engine_quality : Option Text → EngineCall

-- What the hooks give: the room's socket, where there is one, and the store's.
pub record Room : Type 0 where
  pub socket : Option ℕ
  pub timeline : Option Timeline
  pub permissions : Option Permissions
  pub queue : List QueueItem

-- The useState values, the engine, the timer of useChrome; `calls` are those of the present engine.
pub record Player : Type 0 where
  pub engine : Option EngineKind
  pub buffering : Bool
  pub error : Option Failure
  pub muted : Bool
  pub volume : ℕ
  pub volume_open : Bool
  pub position : ℕ
  pub scrub : Option ℕ
  pub engine_live : Bool
  pub qualities : List Text
  pub quality : Option Text
  pub audio_blocked : Bool
  pub awake : Bool
  pub timer : Bool
  pub sent : List ClientMessage
  pub calls : List EngineCall

abbrev pub blank : Player
blank = record {
  engine = none;
  buffering = false;
  error = none;
  muted = false;
  volume = 20;
  volume_open = false;
  position = 0;
  scrub = none;
  engine_live = false;
  qualities = [];
  quality = none;
  audio_blocked = false;
  awake = true;
  timer = false;
  sent = [];
  calls = [];
}

-- The values that a render derives.
abbrev pub source_of : Room → Option MediaSource
source_of room = elim room.timeline [ none ↦ none | some tl ↦ tl.source ]

abbrev pub can_control : Room → Bool
can_control room = elim room.permissions [ none ↦ false | some p ↦ p.can_control_playback ]

unfoldable pub live : Room → Player → Bool
live room p =
    (elim (source_of room) [ none ↦ false | some source ↦ may_be_live source ]) || p.engine_live

abbrev pub paused : Room → Bool
paused room = elim room.timeline [ none ↦ true | some tl ↦ tl.paused ]

abbrev pub awaiting : Room → Bool
awaiting room = elim room.timeline [ none ↦ false | some tl ↦ tl.awaiting_start ]

abbrev pub duration : Room → Option ℕ
duration room = elim room.timeline [ none ↦ none | some tl ↦ tl.duration ]

abbrev pub version : Room → ℕ
version room = elim room.timeline [ none ↦ 0 | some tl ↦ tl.version ]

-- Which mount a source draws into: an iframe, EMBEDDED_KINDS, or the media element.
abbrev pub is_embedded : SourceKind → Bool
is_embedded kind = elim kind [ youtube ↦ true | twitch ↦ true | kick ↦ true | _ ↦ false ]

-- Kick's embed has no volume.
abbrev pub has_volume : Room → Bool
has_volume room = elim (source_of room) [
  | none ↦ true
  | some source ↦ (elim source.kind [ kick ↦ false | _ ↦ true ])
]

abbrev pub kind_text : SourceKind → Text
kind_text youtube = codes "youtube"
kind_text file = codes "file"
kind_text hls = codes "hls"
kind_text dash = codes "dash"
kind_text twitch = codes "twitch"
kind_text kick = codes "kick"

-- sourceKey
unfoldable pub source_key : MediaSource → Text
source_key source = kind_text source.kind ++ codes ":" ++ source.url

abbrev pub engine_for : SourceKind → EngineKind
engine_for youtube = youtube_engine
engine_for twitch = twitch_engine
engine_for kick = kick_engine
engine_for _ = media_engine

-- `socket?.send`
abbrev pub send_to : Option ℕ → ClientMessage → Player → Player
send_to none message p = p
send_to (some socket) message p = record p { sent = message ∷ p.sent }

-- The effect on the source, behind the destroy() of the engine before.
unfoldable pub rebuild : Room → Player → Player
rebuild room p = elim (source_of room) [
  | none ↦ record p { engine = none; calls = [] }
  | some source ↦ record p {
    engine = some (engine_for source.kind);
    buffering = true;
    error = none;
    engine_live = false;
    qualities = [];
    quality = none;
    audio_blocked = false;
    calls = [];
  }
]

abbrev pub same_key : Option MediaSource → Option MediaSource → Bool
same_key none none = true
same_key (some a) (some b) = same_text (source_key a) (source_key b)
same_key _ _ = false

abbrev pub same_socket : Option ℕ → Option ℕ → Bool
same_socket none none = true
same_socket (some a) (some b) = a == b
same_socket _ _ = false

-- A render whose room was `old`: React runs the effect where the key or the socket changed.
unfoldable pub render : Room → Room → Player → Player
render old room p =
    if same_key (source_of old) (source_of room) && same_socket old.socket room.socket
    then p
    else rebuild room p

-- The functions that are handed to the engine; `menu` and `chosen` are what its qualities() and
-- quality() answer.
unfoldable pub on_engine : Room → List Text → Option Text → EngineEvent → Player → Player
on_engine room menu chosen (on_buffering_change on) p = record p { buffering = on }
on_engine room menu chosen (on_error message) p = record p {
  error = some message;
  buffering = false;
}
on_engine room menu chosen on_ready p =
    send_to room.socket (playback_ready (version room)) (record p { buffering = false })
on_engine room menu chosen on_live p = record p { engine_live = true }
on_engine room menu chosen on_audio_blocked p = record p { audio_blocked = true; muted = true }
on_engine room menu chosen on_qualities_change p =
    if is_some p.engine
    then record p { qualities = menu; quality = chosen }
    else record p { qualities = []; quality = none }
on_engine room menu chosen (on_duration_change seconds) p =
    if can_control room then send_to room.socket (report_duration seconds) p else p
on_engine room menu chosen _ p = p

-- The effect of the position, at a time of the server.
unfoldable pub update : ℤ → Room → Player → Player
update now room p = elim room.timeline [
  | none ↦ p
  | some tl ↦ if is_some room.socket then record p { position = position_at tl now } else p
]

-- useChrome: wake, its timeout, and what is visible.
unfoldable pub wake : Bool → Player → Player
wake active p = record p { awake = active; timer = active }

unfoldable pub idle : Player → Player
idle p = if p.timer then record p { awake = false; timer = false } else p

unfoldable pub visible : Room → Player → Bool
visible room p = (paused room || awaiting room || is_some p.error) || p.awake
