-- ===== src/Engine.antt =====
-- apps/web/src/realtime/player/engine.ts: what every player engine reports, and the durations.
--
-- An engine calls the functions of an EngineEvents; a model keeps a log of the calls, newest first.
-- Commands for a third-party player are a log too, and what such a player answers is an argument.
pub mod Kick
pub mod Youtube
pub mod Twitch
pub mod Media
pub mod Scripts
use youtube_rooms.Prelude.{
  ℕ, suc, Bool, true, false, Option, none, some, List, [], ◌∷◌, if◌then◌else◌,
}
use youtube_rooms.Prelude.Int.{ℤ, pos, ltb_ℤ}
use youtube_rooms.Number.{Number, num}

-- The texts that an engine reports, from the four adapters.
pub data Failure : Type 0 where
  not_a_channel kick_unreachable kick_not_loaded : Failure
  no_video_id api_not_loaded : Failure
  invalid_id not_embeddable removed not_allowed unexpected : Failure
  aborted network_dropped not_decodable not_playable unknown_media : Failure
  not_a_twitch_link twitch_not_loaded twitch_offline : Failure
  no_hls stream_failed relayed_stream_failed unsupported : Failure

-- EngineEvents: one constructor for each function.
pub data EngineEvent : Type 0 where
  on_ready on_live on_qualities_change on_ended : EngineEvent
  on_intent_play on_intent_pause on_audio_blocked : EngineEvent
  on_duration_change : ℤ → EngineEvent
  on_error : Failure → EngineEvent
  on_buffering_change : Bool → EngineEvent

-- usableDuration
unfoldable pub usable_duration : Option Number → Option ℤ
usable_duration none = none
usable_duration (some (num a)) = if ltb_ℤ (pos 0) a then some a else none
usable_duration (some _) = none

-- How many calls of a log are of one kind.
abbrev pub count {ℓ} : {A : Type ℓ} → (A → Bool) → List A → ℕ
count p [] = 0
count p (x ∷ xs) = if p x then suc (count p xs) else count p xs

abbrev pub is_on_ready : EngineEvent → Bool
is_on_ready on_ready = true
is_on_ready _ = false

abbrev pub is_on_audio_blocked : EngineEvent → Bool
is_on_audio_blocked on_audio_blocked = true
is_on_audio_blocked _ = false

abbrev pub is_on_duration_change : EngineEvent → Bool
is_on_duration_change (on_duration_change seconds) = true
is_on_duration_change _ = false

-- The number of times that a flag was set once for all.
abbrev pub once : Bool → ℕ
once true = 1
once false = 0
