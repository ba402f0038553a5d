-- ===== src/Player/Sound.antt =====
-- The sound that apps/web/src/components/room/player.tsx shows, and the one its engine was told.
use youtube_rooms.Prelude.{
  ℕ, ◌≤◌, ◌≡◌, Bool, true, not, ◌||◌, Option, none, some, List, [], ◌∷◌, ◌==◌, if◌then◌else◌,
}
use youtube_rooms.Prelude.Text.{Text}
use youtube_rooms.Player.View.{EngineCall, set_engine_volume, set_engine_muted, Player}

-- What the engine was told last, where it was told.
abbrev pub told_muted : List EngineCall → Option Bool
told_muted [] = none
told_muted (set_engine_muted muted ∷ cs) = some muted
told_muted (c ∷ cs) = told_muted cs

abbrev pub told_volume : List EngineCall → Option ℕ
told_volume [] = none
told_volume (set_engine_volume level ∷ cs) = some level
told_volume (c ∷ cs) = told_volume cs

-- A last word to the engine is the sound that is shown, but for a mute that the browser forced.
abbrev pub mutes : Bool → Bool → Option Bool → Bool
mutes blocked muted none = true
mutes blocked muted (some told) = blocked || (if told then muted else not muted)

abbrev pub levels : ℕ → Option ℕ → Bool
levels volume none = true
levels volume (some told) = told == volume

pub record Agrees (p : Player) : Type 0 where
  pub same_mute : mutes p.audio_blocked p.muted (told_muted p.calls) ≡ true
  pub same_level : levels p.volume (told_volume p.calls) ≡ true
  pub owed : p.audio_blocked ≡ true → p.muted ≡ true
  pub bounded : p.volume ≤ 20
  pub fresh : p.engine ≡ none → p.calls ≡ []
