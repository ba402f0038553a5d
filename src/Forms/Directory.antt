-- ===== src/Forms/Directory.antt =====
-- apps/web/src/routes/rooms.index.tsx: the directory of the public rooms.
pub mod Searched
use youtube_rooms.Prelude.{
  ℕ, Bool, true, false, Option, none, some, List, [], ◌∷◌, leb, if◌then◌else◌,
}
use youtube_rooms.Prelude.Text.{Text, trim, is_empty}
use youtube_rooms.Debounce.{Debounced, call, pass}
use youtube_rooms.Protocol.Primitives.{
  RoomCategory, general, anime, gaming, programming, music, movies, education,
}
use youtube_rooms.Protocol.Rest.{Sort, trending, RoomListQuery}

-- The state of RoomDirectory; `commit` is what debounce returned.
pub record RoomDirectory : Type 0 where
  pub sort : Sort
  pub category : Option RoomCategory
  pub draft : Text
  pub query : Text
  pub commit : Debounced Text

abbrev pub blank : RoomDirectory
blank = record {
  sort = trending;
  category = none;
  draft = [];
  query = [];
  commit = record { timer = none; called = [] };
}

abbrev pub wait_ms : ℕ
wait_ms = 300

-- The field's onChange.
unfoldable pub type_draft : Text → RoomDirectory → RoomDirectory
type_draft t d = record d { draft = t; commit = call wait_ms t d.commit }

-- The query that the last call of the debounced function set.
abbrev pub set_query : List Text → Text → Text
set_query [] query = query
set_query (value ∷ called) query = trim value

-- Time that passes.
unfoldable pub pass_time : ℕ → RoomDirectory → RoomDirectory
pass_time ms d =
    let commit = pass ms d.commit in
    record d { commit = commit; query = set_query commit.called d.query }

-- `category === value`
abbrev pub category_number : RoomCategory → ℕ
category_number general = 0
category_number anime = 1
category_number gaming = 2
category_number programming = 3
category_number music = 4
category_number movies = 5
category_number education = 6

abbrev pub is_category : RoomCategory → Option RoomCategory → Bool
is_category value none = false
is_category value (some c) =
    if leb (category_number c) (category_number value)
    then leb (category_number value) (category_number c)
    else false

unfoldable pub toggle_category : RoomCategory → RoomDirectory → RoomDirectory
toggle_category value d = record d {
  category = if is_category value d.category then none else some value;
}

-- The parameters of the request.
unfoldable pub params : RoomDirectory → RoomListQuery
params d = record {
  sort = d.sort;
  category = d.category;
  q = if is_empty d.query then none else some d.query;
  cursor = none;
  limit = none;
}

pub data Event : Type 0 where
  types : Text → Event
  passes : ℕ → Event
  picks_sort : Sort → Event
  presses_category : RoomCategory → Event

unfoldable pub step : RoomDirectory → Event → RoomDirectory
step d (types t) = type_draft t d
step d (passes ms) = pass_time ms d
step d (picks_sort s) = record d { sort = s }
step d (presses_category c) = toggle_category c d

unfoldable pub run : RoomDirectory → List Event → RoomDirectory
run d [] = d
run d (e ∷ es) = run (step d e) es

-- What stands below: of the query's state and of how many rooms came.
pub data Listing : Type 0 where
  skeletons could_not_load nothing_matched no_rooms cards : Listing

unfoldable pub listing : Bool → Bool → ℕ → Text → Listing
listing is_pending is_error rooms query =
    if is_pending
    then skeletons
    else if is_error
    then could_not_load
    else if leb 1 rooms
    then cards
    else if is_empty query
    then no_rooms
    else nothing_matched

-- RoomCard's `full`
unfoldable pub is_full : ℕ → ℕ → Bool
is_full participant_count max_participants = leb max_participants participant_count
