-- ===== src/Panels/Chat.antt =====
-- apps/web/src/components/room/chat.tsx: the composer, the place in the list, the previews of replies.
pub mod Sending
pub mod Place
pub mod Parents
use youtube_rooms.Prelude.{
  ℕ, suc, ◌++◌, Bool, true, false, not, ◌||◌, ◌&&◌, Option, none, some, List, [], ◌∷◌, ◌==◌, leb,
  length, if◌then◌else◌, is_some,
}
use youtube_rooms.Prelude.Int.{ℤ, pos, ◌-ℤ◌, ltb_ℤ}
use youtube_rooms.Prelude.Text.{Text, is_empty, trim}
use youtube_rooms.Protocol.Primitives.{ChatMessage}
use youtube_rooms.Protocol.Client.{ClientMessage, chat_send}

-- The state of ChatPanel; `settled` counts how often the list was moved to its end, `sent` is a log of
-- the messages, newest first. Whether there is a socket is an argument of what sends.
pub record ChatPanel : Type 0 where
  pub draft : Text
  pub reply_to : Option ChatMessage
  pub behind : Bool
  pub pinned_to_bottom : Bool
  pub settled : ℕ
  pub sent : List ClientMessage

abbrev pub blank : ChatPanel
blank = record {
  draft = [];
  reply_to = none;
  behind = false;
  pinned_to_bottom = true;
  settled = 0;
  sent = [];
}

-- toBottom
unfoldable pub to_bottom : ChatPanel → ChatPanel
to_bottom p = record p { settled = suc p.settled; pinned_to_bottom = true; behind = false }

-- The effect on the messages.
unfoldable pub on_messages : ChatPanel → ChatPanel
on_messages p =
    if p.pinned_to_bottom then record p { settled = suc p.settled } else record p { behind = true }

-- onScroll, at the distance from the end of the list.
unfoldable pub on_scroll : ℤ → ChatPanel → ChatPanel
on_scroll distance p =
    let near = ltb_ℤ distance (pos 48) in
    record p { pinned_to_bottom = near; behind = if near then false else p.behind }

abbrev pub id_of : Option ChatMessage → Option ℕ
id_of none = none
id_of (some message) = some message.id

-- send, with the nonce that randomUUID gave.
unfoldable pub send : Bool → ℕ → ChatPanel → ChatPanel
send connected nonce p =
    let body = trim p.draft in
    if is_empty body || not connected then p else record p {
      sent = chat_send body (id_of p.reply_to) nonce ∷ p.sent;
      draft = [];
      reply_to = none;
      pinned_to_bottom = true;
    }

-- onKeyDown
pub data Key : Type 0 where
  enter : Bool → Key
  escape other : Key

unfoldable pub on_key_down : Key → Bool → ℕ → ChatPanel → ChatPanel
on_key_down (enter shift) connected nonce p = if shift then p else send connected nonce p
on_key_down escape connected nonce p = record p { reply_to = none }
on_key_down other connected nonce p = p

-- Keeps the draft under the text area's maxLength.
abbrev pub max_length : ℕ
max_length = 2000

pub data Event : Type 0 where
  types : Text → Event
  presses : Key → Bool → ℕ → Event
  submits : Bool → ℕ → Event
  replies : ChatMessage → Event
  cancels arrives jumps_down : Event
  scrolls : ℤ → Event

-- The submit button is disabled over an empty draft, and send refuses it too.
unfoldable pub step : ChatPanel → Event → ChatPanel
step p (types draft) = if leb (length draft) max_length then record p { draft = draft } else p
step p (presses key connected nonce) = on_key_down key connected nonce p
step p (submits connected nonce) = send connected nonce p
step p (replies message) = record p { reply_to = some message }
step p cancels = record p { reply_to = none }
step p arrives = on_messages p
step p jumps_down = if p.behind then to_bottom p else p
step p (scrolls distance) = on_scroll distance p

unfoldable pub run : ChatPanel → List Event → ChatPanel
run p [] = p
run p (e ∷ es) = run (step p e) es

-- A Map, as the list of its entries in the order of insertion; set keeps the place of a key.
abbrev pub Entries : Type 0
Entries = List (ℕ × ChatMessage)

unfoldable pub set_entry : ℕ → ChatMessage → Entries → Entries
set_entry id message [] = (id, message) ∷ []
set_entry id message (e ∷ es) =
    let rest = set_entry id message es in if e.0 == id then (id, message) ∷ es else e ∷ rest

unfoldable pub get_entry : ℕ → Entries → Option ChatMessage
get_entry id [] = none
get_entry id (e ∷ es) = let rest = get_entry id es in if e.0 == id then some e.1 else rest

-- byId
unfoldable pub fill : List ChatMessage → Entries → Entries
fill [] entries = entries
fill (m ∷ ms) entries = fill ms (set_entry m.id m entries)

unfoldable pub by_id : List ChatMessage → Entries
by_id messages = fill messages []

-- The `parent` of a row.
unfoldable pub parent_of : List ChatMessage → ChatMessage → Option ChatMessage
parent_of messages message = elim message.reply_to [
  | none ↦ none
  | some id ↦ get_entry id (by_id messages)
]

-- continues
unfoldable pub continues : Option ChatMessage → ChatMessage → Bool
continues none message = false
continues (some previous) message =
    if is_some previous.system || is_some message.system
    then false
    else if not (previous.author.id == message.author.id)
    then false
    else if is_some message.reply_to
    then false
    else ltb_ℤ (message.sent_at -ℤ previous.sent_at) (pos 300000)

-- The `grouped` of the rows: each message with the one before it.
unfoldable pub grouped : Option ChatMessage → List ChatMessage → List Bool
grouped previous [] = []
grouped previous (m ∷ ms) = continues previous m ∷ grouped (some m) ms
