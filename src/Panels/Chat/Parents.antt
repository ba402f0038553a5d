-- ===== src/Panels/Chat/Parents.antt =====
-- The lookup of the replied-to message in apps/web/src/components/room/chat.tsx.
use youtube_rooms.Prelude.{
  ℕ, ◌≡◌, refl, Option, none, some, List, [], ◌∷◌, ◌==◌, if◌then◌else◌, arith,
}
use youtube_rooms.Protocol.Primitives.{ChatMessage}
use youtube_rooms.Panels.Chat.{Entries, set_entry, get_entry, fill, by_id, parent_of}

abbrev pub or_else : Option ChatMessage → Option ChatMessage → Option ChatMessage
or_else none o = o
or_else (some m) o = some m

-- The search through the whole list, from its end.
abbrev pub search_back : ℕ → List ChatMessage → Option ChatMessage
search_back id [] = none
search_back id (m ∷ ms) = or_else (search_back id ms) (if m.id == id then some m else none)

get_entry-set_entry :
    (i j : ℕ) (m : ChatMessage) (es : Entries)
    → get_entry j (set_entry i m es) ≡ (if i == j then some m else get_entry j es)
unfolding get_entry set_entry
get_entry-set_entry i j m [] = refl
get_entry-set_entry i j m (e ∷ es) = ground (arith, get_entry-set_entry i j m es)

get_entry-fill :
    (id : ℕ) (ms : List ChatMessage) (es : Entries)
    → get_entry id (fill ms es) ≡ or_else (search_back id ms) (get_entry id es)
unfolding fill
get_entry-fill id [] es = refl
get_entry-fill id (m ∷ ms) es =
    ground (arith, get_entry-fill id ms (set_entry m.id m es), get_entry-set_entry m.id id m es)

get_entry-by_id :
    (messages : List ChatMessage) (id : ℕ) → get_entry id (by_id messages) ≡ search_back id messages
unfolding by_id get_entry
get_entry-by_id messages id = ground (arith, get_entry-fill id messages [])

abbrev pub search_parent : List ChatMessage → Option ℕ → Option ChatMessage
search_parent messages none = none
search_parent messages (some id) = search_back id messages

-- The preview above a reply, which the panel takes from a map that it builds once for a list, is the
-- message that a search through the list for each reply would give: the latest with the id, and none
-- where there is none or the message is no reply.
pub parent_of-search_parent :
    (messages : List ChatMessage) (message : ChatMessage)
    → parent_of messages message ≡ search_parent messages message.reply_to
unfolding parent_of
parent_of-search_parent messages message = grind (arith, get_entry-by_id)
