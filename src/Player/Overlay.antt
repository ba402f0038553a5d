-- ===== src/Player/Overlay.antt =====
-- What apps/web/src/components/room/player.tsx writes and lays over the picture.
--
-- `parse` is the browser's URL, `none` where it throws, with the path and the host of an address, and
-- `decode` is decodeURIComponent.
use youtube_rooms.Prelude.{
  ℕ, Bool, not, ◌&&◌, ◌||◌, Option, none, some, List, [], ◌∷◌, filter, ◌==◌, if◌then◌else◌,
}
use youtube_rooms.Prelude.Text.{Text, codes, is_empty}
use youtube_rooms.Protocol.Primitives.{SourceKind, youtube, twitch, kick, MediaSource, QueueItem}
use youtube_rooms.Engine.{Failure}
use youtube_rooms.Player.View.{Room, Player, live, paused, awaiting, can_control}

-- StatusOverlay: the error, with the button to skip where there is one; the wait, with its text where
-- the room waits for everyone; the mark of the pause; or nothing.
pub data Overlay : Type 0 where
  cannot_play : Failure → Bool → Overlay
  waits : Bool → Overlay
  is_paused no_overlay : Overlay

abbrev pub without_error : Bool → Bool → Bool → Overlay
without_error awaiting buffering paused =
    if awaiting || buffering then waits awaiting else if not paused then no_overlay else is_paused

unfoldable pub status_overlay : Room → Player → Overlay
status_overlay room p = elim p.error [
  | none ↦ without_error (awaiting room) p.buffering (paused room)
  | some message ↦ cannot_play message (can_control room)
]

-- The offer of UnmuteOverlay.
unfoldable pub offers_sound : Room → Player → Bool
offers_sound room p = p.audio_blocked && not (paused room)

abbrev pub item_with : ℕ → List QueueItem → Option QueueItem
item_with id [] = none
item_with id (item ∷ items) =
    let rest = item_with id items in if item.id == id then some item else rest

-- nowPlaying; the empty id counts as none.
unfoldable pub now_playing : Room → Option QueueItem
now_playing room = elim room.timeline [
  | none ↦ none
  | some tl ↦ (elim tl.queue_item_id [
    | none ↦ none
    | some id ↦ if id == 0 then none else item_with id room.queue
  ])
]

-- split, and the last of the parts that are not empty.
abbrev pub push_char : ℕ → List Text → List Text
push_char c [] = (c ∷ []) ∷ []
push_char c (t ∷ ts) = (c ∷ t) ∷ ts

abbrev pub split : ℕ → Text → List Text
split separator [] = [] ∷ []
split separator (c ∷ t) =
    let rest = split separator t in if c == separator then [] ∷ rest else push_char c rest

abbrev pub last_of : List Text → Option Text → Option Text
last_of [] o = o
last_of (t ∷ ts) o = last_of ts (some t)

unfoldable pub last_segment : Text → Option Text
last_segment path = last_of (filter (λ t. not (is_empty t)) (split 47 path)) none

pub record Address : Type 0 where
  pub pathname : Text
  pub hostname : Text

abbrev pub or_text : Option Text → Text → Text
or_text none other = other
or_text (some t) other = t

module _ (parse : Text → Option Address) (decode : Text → Option Text) where
  abbrev pub file_title : Option Text → Text → Text
  file_title none host = host
  file_title (some segment) host = or_text (decode segment) (codes "Now playing")

  abbrev pub address_title : Option Address → Text
  address_title none = codes "Now playing"
  address_title (some a) = file_title (last_segment a.pathname) a.hostname

  -- titleFromSource
  unfoldable pub title_from_source : MediaSource → Text
  title_from_source source = elim source.kind [
    | youtube ↦ codes "YouTube video"
    | twitch ↦ or_text (last_segment source.url) (codes "Twitch")
    | kick ↦ or_text (last_segment source.url) (codes "Kick")
    | _ ↦ address_title (parse source.url)
  ]

-- describeState: a fixed text, the name of a channel, the host of the source, or its kind in capitals.
pub data Description : Type 0 where
  waiting_for_everyone buffers kick_stream twitch_stream live_stream : Description
  channel : ℕ → Description
  host_name : Text → Description
  kind_name : SourceKind → Description

abbrev pub channel_of : Option QueueItem → ℕ
channel_of none = 0
channel_of (some item) = item.channel_title

abbrev pub host_or_kind : Option Address → SourceKind → Description
host_or_kind none kind = kind_name kind
host_or_kind (some a) kind = host_name a.hostname

abbrev pub describe_source : Option Address → Bool → SourceKind → Description
describe_source address live kick = kick_stream
describe_source address live twitch = twitch_stream
describe_source address live kind = if live then live_stream else host_or_kind address kind

unfoldable pub describe_state : (Text → Option Address) → Room → Player → MediaSource → Description
describe_state parse room p source =
    if awaiting room
    then waiting_for_everyone
    else if p.buffering
    then buffers
    else if not (channel_of (now_playing room) == 0)
    then channel (channel_of (now_playing room))
    else describe_source (parse source.url) (live room p) source.kind

-- posterFor, of the thumbnail of the queue's item; the empty address counts as none.
pub data Poster : Type 0 where
  thumbnail : ℕ → Poster
  youtube_still : Text → Poster

abbrev pub still_of : SourceKind → Option Text → Option Poster
still_of youtube (some id) = if is_empty id then none else some (youtube_still id)
still_of _ id = none

unfoldable pub poster_for : MediaSource → Option QueueItem → Option Poster
poster_for source none = still_of source.kind source.video_id
poster_for source (some item) =
    if item.thumbnail_url == 0
    then still_of source.kind source.video_id
    else some (thumbnail item.thumbnail_url)
