-- ===== src/Engine/Twitch/Inner.antt =====
-- The state and the private methods of apps/web/src/realtime/player/twitch-engine.ts.
use youtube_rooms.Prelude.{
  ℕ, suc, ◌-◌, Bool, true, false, not, ◌||◌, ◌&&◌, Option, none, some, List, [], ◌∷◌, ◌==◌,
  if◌then◌else◌, is_some,
}
use youtube_rooms.Prelude.Int.{ℤ}
use youtube_rooms.Prelude.Text.{Text, codes, same_text, join}
use youtube_rooms.Engine.{
  not_a_twitch_link, twitch_not_loaded, EngineEvent, on_ready, on_qualities_change,
  on_audio_blocked, on_error, on_buffering_change,
}
use youtube_rooms.Engine.Twitch.Renditions.{Quality, Menu, collect, parse_twitch}

-- The calls of the embed that change it.
pub data TwitchCommand : Type 0 where
  play_embed pause_embed destroy_embed : TwitchCommand
  seek_embed : ℤ → TwitchCommand
  set_embed_volume : ℕ → TwitchCommand
  set_embed_muted : Bool → TwitchCommand
  set_embed_quality : Text → TwitchCommand

-- The commands that wait for the embed; a volume is in thousandths.
pub record Pending : Type 0 where
  pub playing : Bool
  pub position : Option ℤ
  pub volume : ℕ
  pub muted : Bool

-- The private fields. `player` says that there is one, `checks` counts the timeouts of the autoplay
-- check; `loading` and `constructed` say how far #create came.
pub record TwitchEngine : Type 0 where
  pub player : Bool
  pub destroyed : Bool
  pub buffering : Bool
  pub announced : Bool
  pub checks : ℕ
  pub blocked : Bool
  pub verifying : Bool
  pub qualities : List Text
  pub groups : List (Text × Text)
  pub pinned : Option Text
  pub pending : Pending
  pub loading : Bool
  pub constructed : Bool
  pub commands : List TwitchCommand
  pub events : List EngineEvent

abbrev pub tell : EngineEvent → TwitchEngine → TwitchEngine
tell e t = record t { events = e ∷ t.events }

abbrev pub command : TwitchCommand → TwitchEngine → TwitchEngine
command c t = record t { commands = c ∷ t.commands }

-- `#player?.`
abbrev pub command_player : TwitchCommand → TwitchEngine → TwitchEngine
command_player c t = if t.player then command c t else t

abbrev pub blank : Bool → TwitchEngine
blank loading = record {
  player = false;
  destroyed = false;
  buffering = true;
  announced = false;
  checks = 0;
  blocked = false;
  verifying = false;
  qualities = [];
  groups = [];
  pinned = none;
  pending = record { playing = false; position = none; volume = 1000; muted = false };
  loading = loading;
  constructed = false;
  commands = [];
  events = [];
}

-- The constructor, and #create up to its wait for the API.
unfoldable pub new : Option (List Text) → TwitchEngine
new url =
    if is_some (parse_twitch url)
    then blank true
    else tell (on_error not_a_twitch_link) (blank false)

-- #create behind its wait.
unfoldable pub api_came : TwitchEngine → TwitchEngine
api_came t = record t {
  loading = false;
  constructed = t.constructed || (t.loading && not t.destroyed);
}

unfoldable pub api_failed : TwitchEngine → TwitchEngine
api_failed t =
    if t.loading then tell (on_error twitch_not_loaded) (record t { loading = false }) else t

-- #setBuffering
abbrev pub set_buffering : Bool → TwitchEngine → TwitchEngine
set_buffering true t =
    if t.buffering then t else tell (on_buffering_change true) (record t { buffering = true })
set_buffering false t =
    if t.buffering then tell (on_buffering_change false) (record t { buffering = false }) else t

-- #markReady
abbrev pub mark_ready : TwitchEngine → TwitchEngine
mark_ready t =
    if t.announced then t else tell on_ready (set_buffering false (record t { announced = true }))

-- What isPaused answers, where the embed has it.
abbrev pub is_going : Option Bool → Bool
is_going (some false) = true
is_going _ = false

abbrev pub is_halted : Option Bool → Bool
is_halted (some true) = true
is_halted _ = false

abbrev pub autoplay_grace_ms : ℕ
autoplay_grace_ms = 1200

-- #start, and the timeout that #after arms.
unfoldable pub start : Option Bool → TwitchEngine → TwitchEngine
start paused t =
    if not t.player || is_going paused
    then t
    else let played = command play_embed t in
      if played.blocked || played.verifying
      then played
      else record played { verifying = true; checks = suc played.checks }

-- The autoplay check, a while later.
unfoldable pub check : Option Bool → TwitchEngine → TwitchEngine
check paused t =
    if t.destroyed || (t.checks == 0)
    then t
    else let fired = record t { checks = t.checks - 1; verifying = false } in
      if not fired.pending.playing || not fired.player || not (is_halted paused)
      then fired
      else tell on_audio_blocked
          (command play_embed (command (set_embed_muted true) (record fired { blocked = true })))

abbrev pub seek_pending : Option ℤ → TwitchEngine → TwitchEngine
seek_pending position t = elim position [ none ↦ t | some seconds ↦ command (seek_embed seconds) t ]

-- #applyPending
unfoldable pub apply_pending : Option Bool → TwitchEngine → TwitchEngine
apply_pending paused t =
    if not t.player
    then t
    else let sought = seek_pending t.pending.position (
        command (set_embed_muted t.pending.muted)
          (command (set_embed_volume t.pending.volume) t)) in
      if t.pending.playing then start paused sought else command pause_embed sought

abbrev pub offered : Option (List Quality) → Bool → List Quality
offered options player = if player then (elim options [ none ↦ [] | some qs ↦ qs ]) else []

abbrev pub no_menu : Menu
no_menu = record { labels = []; groups = [] }

unfoldable pub adopt : Menu → TwitchEngine → TwitchEngine
adopt menu t =
    if same_text (join (codes "|") menu.labels) (join (codes "|") t.qualities)
    then t
    else tell on_qualities_change (record t { qualities = menu.labels; groups = menu.groups })

-- #readQualities
unfoldable pub read_qualities : Option (List Quality) → TwitchEngine → TwitchEngine
unfolding adopt
read_qualities options t = adopt (collect (offered options t.player) no_menu) t
