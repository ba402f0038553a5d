-- ===== src/Tests/Twitch.antt =====
-- The Twitch embed.
use youtube_rooms.Prelude.{◌≤◌, ◌≡◌, refl, true, Option, none, some, List, [], ◌∷◌}
use youtube_rooms.Prelude.Int.{pos}
use youtube_rooms.Prelude.Text.{Text, codes}
use youtube_rooms.Engine.{count, is_on_ready, is_on_audio_blocked}
use youtube_rooms.Engine.Twitch
use youtube_rooms.Engine.Twitch.Renditions.{Quality, parse_twitch, channel}
use youtube_rooms.Engine.Twitch.Inner
use youtube_rooms.Engine.Twitch.Inner.{set_embed_muted, set_embed_volume, play_embed}
use youtube_rooms.Engine.Twitch.Autoplay.{run-announces_once}
use youtube_rooms.Engine.Twitch.Replayed.{on_embed_ready-replayed}

abbrev url : Option (List Text)
url = some ([] ∷ codes "someone" ∷ [])

parses_a_channel : parse_twitch url ≡ some (channel (codes "someone"))
unfolding parse_twitch
parses_a_channel = refl

abbrev rendition : Text → Text → Quality
rendition group name = record { group = some group; name = some name }

-- The source rendition, one that bears its name twice, and the adaptive choice.
abbrev offer : Option (List Quality)
offer = some (
    rendition (codes "auto") (codes "Auto")
    ∷ rendition (codes "chunked") (codes "1080p60")
    ∷ rendition (codes "720p60") (codes "720p")
    ∷ rendition (codes "720p30") (codes "720p")
    ∷ [])

abbrev joins : List Twitch.Event
joins =
    Twitch.plays none
    ∷ Twitch.sets_volume (pos 400)
    ∷ Twitch.api_comes
    ∷ Twitch.gets_ready (some true)
    ∷ Twitch.starts none offer
    ∷ []

run-announces_once_example :
    (count is_on_ready (Twitch.run (Inner.new url) joins).events ≤ 1)
    × ((Twitch.run (Inner.new url) joins).checks ≤ 1)
    × (count is_on_audio_blocked (Twitch.run (Inner.new url) joins).events ≤ 1)
run-announces_once_example = run-announces_once url joins

abbrev early : List Twitch.Event
early = Twitch.sets_muted true ∷ Twitch.plays none ∷ Twitch.api_comes ∷ []

on_embed_ready-replayed_example :
    (Twitch.on_embed_ready (some true) (Twitch.run (Inner.new url) early)).commands
    ≡ play_embed ∷ set_embed_muted true ∷ set_embed_volume 1000 ∷ []
unfolding Inner.new Inner.api_came Inner.start Twitch.run Twitch.step Twitch.play Twitch.set_muted
    parse_twitch
on_embed_ready-replayed_example = on_embed_ready-replayed url early (some true) refl refl
