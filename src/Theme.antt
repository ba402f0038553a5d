-- ===== src/Theme.antt =====
-- apps/web/src/components/theme-provider.tsx and apps/web/src/lib/themes.ts: the viewer's theme, and
-- the one that a room lays over it.
--
-- What localStorage holds is a text or nothing; a browser that blocks it is the flag `storage`.
pub mod Kept
use youtube_rooms.Prelude.{ℕ, Bool, true, false, Option, none, some, List, [], ◌∷◌, if◌then◌else◌}
use youtube_rooms.Prelude.Text.{Text, codes, same_text}
use youtube_rooms.Protocol.Server.{ThemeMode, light, dark}

-- THEME_KEYS
pub data ThemeKey : Type 0 where
  default amethyst amber bubblegum caffeine claymorphism cosmic graphite mono nature ocean sunset :
      ThemeKey

abbrev pub key_text : ThemeKey → Text
key_text default = codes "default"
key_text amethyst = codes "amethyst"
key_text amber = codes "amber"
key_text bubblegum = codes "bubblegum"
key_text caffeine = codes "caffeine"
key_text claymorphism = codes "claymorphism"
key_text cosmic = codes "cosmic"
key_text graphite = codes "graphite"
key_text mono = codes "mono"
key_text nature = codes "nature"
key_text ocean = codes "ocean"
key_text sunset = codes "sunset"

abbrev pub theme_keys : List ThemeKey
theme_keys =
    default ∷ amethyst ∷ amber ∷ bubblegum ∷ caffeine ∷ claymorphism ∷ cosmic ∷ graphite ∷ mono
    ∷ nature ∷ ocean ∷ sunset ∷ []

abbrev pub default_theme : ThemeKey
default_theme = default

abbrev pub default_mode : ThemeMode
default_mode = dark

-- The key that a text is, among some, or the default one.
abbrev pub find_key : Text → List ThemeKey → ThemeKey
find_key value [] = default_theme
find_key value (k ∷ ks) = if same_text (key_text k) value then k else find_key value ks

-- asThemeKey
unfoldable pub as_theme_key : Option Text → ThemeKey
as_theme_key none = default_theme
as_theme_key (some value) = find_key value theme_keys

abbrev pub mode_text : ThemeMode → Text
mode_text light = codes "light"
mode_text dark = codes "dark"

-- asThemeMode
unfoldable pub as_theme_mode : Option Text → ThemeMode
as_theme_mode none = default_mode
as_theme_mode (some value) =
    if same_text (mode_text light) value
    then light
    else if same_text (mode_text dark) value
    then dark
    else default_mode

-- The state of ThemeProvider, the two items of the storage, and what the document was given, newest
-- first.
pub record ThemeProvider : Type 0 where
  pub preferred_theme : ThemeKey
  pub preferred_mode : ThemeMode
  pub room_theme : Option ThemeKey
  pub room_mode : Option ThemeMode
  pub storage : Bool
  pub stored_theme : Option Text
  pub stored_mode : Option Text
  pub painted : List (ThemeKey × ThemeMode)

-- The first render, over what is stored.
abbrev pub blank : Bool → Option Text → Option Text → ThemeProvider
blank storage stored_theme stored_mode = record {
  preferred_theme = default_theme;
  preferred_mode = default_mode;
  room_theme = none;
  room_mode = none;
  storage = storage;
  stored_theme = stored_theme;
  stored_mode = stored_mode;
  painted = [];
}

abbrev pub or_theme : Option ThemeKey → ThemeKey → ThemeKey
or_theme none k = k
or_theme (some room) k = room

abbrev pub or_mode : Option ThemeMode → ThemeMode → ThemeMode
or_mode none m = m
or_mode (some room) m = room

-- `theme` and `mode`
abbrev pub theme : ThemeProvider → ThemeKey
theme p = or_theme p.room_theme p.preferred_theme

abbrev pub mode : ThemeProvider → ThemeMode
mode p = or_mode p.room_mode p.preferred_mode

-- The effect on the theme and the mode.
abbrev pub paint : ThemeProvider → ThemeProvider
paint p = record p { painted = (theme p, mode p) ∷ p.painted }

-- The effect of the mount.
unfoldable pub adopt : ThemeProvider → ThemeProvider
adopt p =
    if p.storage
    then record p {
      preferred_theme = as_theme_key p.stored_theme;
      preferred_mode = as_theme_mode p.stored_mode;
    }
    else p

-- The mount: both effects run on the first render, whose state is not yet what is stored, and the
-- second one again on the next render.
unfoldable pub mount : ThemeProvider → ThemeProvider
mount p = paint (adopt (paint p))

-- setTheme, setMode, toggleMode and setRoomTheme
unfoldable pub set_theme : ThemeKey → ThemeProvider → ThemeProvider
set_theme next p = record p {
  preferred_theme = next;
  stored_theme = if p.storage then some (key_text next) else p.stored_theme;
}

unfoldable pub set_mode : ThemeMode → ThemeProvider → ThemeProvider
set_mode next p = record p {
  preferred_mode = next;
  stored_mode = if p.storage then some (mode_text next) else p.stored_mode;
}

abbrev pub other_mode : ThemeMode → ThemeMode
other_mode dark = light
other_mode light = dark

unfoldable pub toggle_mode : ThemeProvider → ThemeProvider
unfolding set_mode
toggle_mode p = set_mode (other_mode (mode p)) p

unfoldable pub set_room_theme : Option ThemeKey → Option ThemeMode → ThemeProvider → ThemeProvider
set_room_theme next next_mode p = record p { room_theme = next; room_mode = next_mode }

-- useRoomTheme, of the room's texts: the effect and its cleanup.
unfoldable pub enter_room : Text → Option Text → ThemeProvider → ThemeProvider
enter_room room_theme room_mode p =
    set_room_theme (some (as_theme_key (some room_theme))) (some (as_theme_mode room_mode)) p

unfoldable pub leave_room : ThemeProvider → ThemeProvider
leave_room p = set_room_theme none none p

pub data Event : Type 0 where
  picks_theme : ThemeKey → Event
  picks_mode : ThemeMode → Event
  toggles leaves : Event
  enters : Text → Option Text → Event

unfoldable pub step : ThemeProvider → Event → ThemeProvider
step p (picks_theme next) = paint (set_theme next p)
step p (picks_mode next) = paint (set_mode next p)
step p toggles = paint (toggle_mode p)
step p (enters room_theme room_mode) = paint (enter_room room_theme room_mode p)
step p leaves = paint (leave_room p)

unfoldable pub run : ThemeProvider → List Event → ThemeProvider
run p [] = p
run p (e ∷ es) = run (step p e) es
