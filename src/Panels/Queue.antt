-- ===== src/Panels/Queue.antt =====
-- apps/web/src/components/room/queue.tsx: the buttons of the queue, and the two dialogs that take an
-- address.
pub mod Permission
use youtube_rooms.Prelude.{
  ℕ, Bool, true, false, not, ◌||◌, ◌&&◌, Option, none, some, List, [], ◌∷◌, ◌==◌, leb, any, length,
  if◌then◌else◌, is_some,
}
use youtube_rooms.Prelude.Text.{Text, is_empty, trim}
use youtube_rooms.Protocol.Primitives.{Permissions, QueueItem}
use youtube_rooms.Protocol.Client.{
  ClientMessage, sync_intent, play_now, queue_add, queue_import, queue_remove, queue_clear,
  queue_shuffle,
}
use youtube_rooms.Timeline.{Timeline}

-- The state of AddSourceDialog and of ImportPlaylistDialog.
pub record Dialog : Type 0 where
  pub is_open : Bool
  pub url : Text

-- What QueuePanel takes from the hooks.
pub record Room : Type 0 where
  pub socket : Bool
  pub queue : List QueueItem
  pub timeline : Option Timeline
  pub permissions : Option Permissions

-- The dialogs of the panel; `sent` is a log of the messages, newest first.
pub record QueuePanel : Type 0 where
  pub add : Dialog
  pub playlist : Dialog
  pub sent : List ClientMessage

abbrev pub closed : Dialog
closed = record { is_open = false; url = [] }

abbrev pub blank : QueuePanel
blank = record { add = closed; playlist = closed; sent = [] }

abbrev pub can_manage : Room → Bool
can_manage room = elim room.permissions [ none ↦ false | some p ↦ p.can_manage_queue ]

abbrev pub can_control : Room → Bool
can_control room = elim room.permissions [ none ↦ false | some p ↦ p.can_control_playback ]

-- `socket?.send`
abbrev pub send : Bool → ClientMessage → QueuePanel → QueuePanel
send connected message p = if connected then record p { sent = message ∷ p.sent } else p

-- submit, of the one dialog and of the other.
unfoldable pub submit_add : Bool → QueuePanel → QueuePanel
submit_add connected p =
    let trimmed = trim p.add.url in
    if is_empty trimmed
    then p
    else record (send connected (queue_add trimmed false) p) { add = closed }

unfoldable pub submit_playlist : Bool → QueuePanel → QueuePanel
submit_playlist connected p =
    let trimmed = trim p.playlist.url in
    if is_empty trimmed
    then p
    else record (send connected (queue_import trimmed) p) { playlist = closed }

-- A row's buttons stand for an item of the queue; a form is in the page while its dialog is open.
pub data Event : Type 0 where
  renders : Room → Event
  shuffles clears : Event
  plays removes : ℕ → Event
  opens_add opens_playlist dismisses_add dismisses_playlist submits_add submits_playlist : Event
  types_add types_playlist : Text → Event

abbrev pub has_item : ℕ → Room → Bool
has_item id room = any (λ item. item.id == id) room.queue

-- onPlay
abbrev pub on_play : ℕ → Room → QueuePanel → QueuePanel
on_play id room p = elim room.timeline [
  | none ↦ p
  | some tl ↦ send room.socket (sync_intent (play_now id) tl.version) p
]

-- QueuePanel in its room: each button with what disables or hides it.
pub record Stage : Type 0 where
  pub room : Room
  pub panel : QueuePanel

unfoldable pub act : Room → Event → QueuePanel → QueuePanel
act room (renders next) p = p
act room shuffles p =
    if can_manage room && leb 2 (length room.queue) then send room.socket queue_shuffle p else p
act room clears p =
    if can_manage room && leb 1 (length room.queue) then send room.socket queue_clear p else p
act room (plays id) p = if can_control room && has_item id room then on_play id room p else p
act room (removes id) p =
    if can_manage room && has_item id room then send room.socket (queue_remove id) p else p
act room opens_add p =
    if can_manage room then record p { add = record p.add { is_open = true } } else p
act room opens_playlist p =
    if can_manage room then record p { playlist = record p.playlist { is_open = true } } else p
act room dismisses_add p = record p { add = record p.add { is_open = false } }
act room dismisses_playlist p = record p { playlist = record p.playlist { is_open = false } }
act room (types_add url) p =
    if p.add.is_open then record p { add = record p.add { url = url } } else p
act room (types_playlist url) p =
    if p.playlist.is_open then record p { playlist = record p.playlist { url = url } } else p
act room submits_add p = if p.add.is_open then submit_add room.socket p else p
act room submits_playlist p = if p.playlist.is_open then submit_playlist room.socket p else p

abbrev pub room_after : Event → Room → Room
room_after (renders next) room = next
room_after _ room = room

unfoldable pub step : Stage → Event → Stage
step s e = record { room = room_after e s.room; panel = act s.room e s.panel }

unfoldable pub run : Stage → List Event → Stage
run s [] = s
run s (e ∷ es) = run (step s e) es
