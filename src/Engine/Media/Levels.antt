-- ===== src/Engine/Media/Levels.antt =====
-- apps/web/src/realtime/player/media-engine.ts: the renditions of an adaptive stream.
pub mod Choice
use youtube_rooms.Prelude.{
  ℕ, ◌+◌, ◌/◌, Bool, true, false, Option, none, some, List, [], ◌∷◌, map, ltb, ◌==◌, if◌then◌else◌,
  get_elem?, find_index,
}

-- What a label says: a number of lines, a rate, or neither.
pub data Label : Type 0 where
  lines kbps : ℕ → Label
  auto : Label

abbrev pub same_label : Label → Label → Bool
same_label (lines m) (lines n) = m == n
same_label (kbps m) (kbps n) = m == n
same_label Label.auto Label.auto = true
same_label _ _ = false

-- A level of hls.js; 0 stands for a height or a bitrate that is missing too.
pub record Level : Type 0 where
  pub height : ℕ
  pub bitrate : ℕ

-- describeLevel
unfoldable pub describe_level : Level → Label
describe_level level =
    if ltb 0 level.height
    then lines level.height
    else if ltb 0 level.bitrate
    then kbps ((level.bitrate + 500) / 1000)
    else Label.auto

-- currentLevel, `none` for an index below 0, and the levels.
pub record Hls : Type 0 where
  pub levels : List Level
  pub current_level : Option ℕ

-- The labels of the renditions.
unfoldable pub labels : Hls → List Label
labels hls = map describe_level hls.levels

describe_elem : Option Level → Option Label
describe_elem none = none
describe_elem (some level) = some (describe_level level)

current_of : Option ℕ → List Level → Option Label
current_of none levels = none
current_of (some index) levels = describe_elem (get_elem? levels index)

-- get
unfoldable pub quality : Hls → Option Label
unfolding describe_elem current_of
quality hls = current_of hls.current_level hls.levels

-- set; findIndex answers -1 where there is no such level.
unfoldable pub set_quality : Option Label → Hls → Hls
set_quality none hls = record hls { current_level = none }
set_quality (some label) hls = record hls {
  current_level = find_index (λ level. same_label (describe_level level) label) hls.levels;
}
