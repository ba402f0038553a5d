-- ===== src/Engine/Twitch/Renditions.antt =====
-- apps/web/src/realtime/player/twitch-engine.ts: the renditions of the embed, and its addresses.
use youtube_rooms.Prelude.{
  Bool, false, ◌||◌, Option, none, some, List, [], ◌∷◌, ◌++◌, if◌then◌else◌,
}
use youtube_rooms.Prelude.Text.{Text, codes, same_text, is_empty}

-- TwitchQuality
pub record Quality : Type 0 where
  pub group : Option Text
  pub name : Option Text

-- What #readQualities collects: the labels, and the group of each label.
pub record Menu : Type 0 where
  pub labels : List Text
  pub groups : List (Text × Text)

abbrev pub auto_group : Text
auto_group = codes "auto"

abbrev pub chunked_group : Text
chunked_group = codes "chunked"

abbrev pub source_label : Text
source_label = codes "Source"

abbrev pub name_or : Option Text → Text → Text
name_or none group = group
name_or (some name) group = name

-- Map.get
abbrev pub get : List (Text × Text) → Text → Option Text
get [] label = none
get (g ∷ gs) label = if same_text g.0 label then some g.1 else get gs label

-- Map.has
abbrev pub has : List (Text × Text) → Text → Bool
has [] label = false
has (g ∷ gs) label = same_text g.0 label || has gs label

abbrev pub label_of : Option Text → Text → Text
label_of name group = if same_text group chunked_group then source_label else name_or name group

abbrev pub add_label : Text → Text → Menu → Menu
add_label label group m =
    if has m.groups label
    then m
    else record { labels = m.labels ++ label ∷ []; groups = m.groups ++ (label, group) ∷ [] }

unfoldable pub add_group : Option Text → Option Text → Menu → Menu
add_group none name m = m
add_group (some group) name m =
    if is_empty group || same_text group auto_group
    then m
    else add_label (label_of name group) group m

-- The body of the loop of #readQualities.
unfoldable pub add_option : Quality → Menu → Menu
unfolding add_group
add_option option m = add_group option.group option.name m

unfoldable pub collect : List Quality → Menu → Menu
collect [] m = m
collect (option ∷ options) m = collect options (add_option option m)

-- What an address of Twitch names.
pub data Target : Type 0 where
  channel video : Text → Target

target_of : List Text → Option Target
target_of (id ∷ []) = some (channel id)
target_of (folder ∷ id ∷ []) = if same_text folder (codes "videos") then some (video id) else none
target_of _ = none

abbrev pub non_empty : List Text → List Text
non_empty [] = []
non_empty (t ∷ ts) = if is_empty t then non_empty ts else t ∷ non_empty ts

-- parseTwitch, of the segments of the path; `none` is an address that does not parse.
unfoldable pub parse_twitch : Option (List Text) → Option Target
unfolding target_of
parse_twitch none = none
parse_twitch (some segments) = target_of (non_empty segments)
