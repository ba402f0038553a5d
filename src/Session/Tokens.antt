-- ===== src/Session/Tokens.antt =====
-- apps/web/src/components/session-provider.tsx over apps/web/src/lib/api.ts: who is signed in, beside
-- the token and the timer of the client.
pub mod Refreshed
use youtube_rooms.Prelude.{
  ℕ, Bool, true, false, Option, none, some, List, [], ◌∷◌, if◌then◌else◌, is_some,
}
use youtube_rooms.Protocol.Primitives.{UserSummary}
use youtube_rooms.Session
use youtube_rooms.Session.{SessionProvider, Start, refreshing}
use youtube_rooms.Api
use youtube_rooms.Api.{Client, refresh_access_token, schedule_refresh}

pub record App : Type 0 where
  pub provider : SessionProvider
  pub client : Client

-- The mount, whose effect asks for a token.
unfoldable pub mount_app : App
mount_app = record { provider = Session.blank; client = refresh_access_token Api.new }

-- refreshAccessToken answers, first to the effect that waits for it.
unfoldable pub on_token : Option (ℕ × ℕ) → App → App
on_token result a = record {
  provider = Session.on_refreshed (is_some result) a.provider;
  client = Api.on_refreshed result a.client;
}

-- signInAsGuest, where the request has answered: the user, the token and its life.
unfoldable pub sign_in : Option (UserSummary × ℕ × ℕ) → App → App
sign_in none a = a
sign_in (some (user, token, expires_in)) a = record {
  provider = Session.on_guest (some user) a.provider;
  client = schedule_refresh expires_in (record a.client { access_token = some token });
}

-- signOut, where its request has settled either way.
unfoldable pub sign_out : Bool → App → App
sign_out fulfilled a = record {
  provider = Session.on_signed_out fulfilled a.provider;
  client = record a.client { access_token = none };
}

-- The timer of scheduleRefresh.
abbrev pub fire_at : Option ℕ → Client → Client
fire_at none c = c
fire_at (some ms) c = refresh_access_token (record c { refresh_timer = none })

unfoldable pub fire : App → App
fire a = record a { client = fire_at a.client.refresh_timer a.client }

-- Also a call that is refused with 401 asks for a token.
pub data Event : Type 0 where
  tokens : Option (ℕ × ℕ) → Event
  sessions renames : Option UserSummary → Event
  signs_in : Option (UserSummary × ℕ × ℕ) → Event
  signs_out : Bool → Event
  fires refuses : Event

unfoldable pub step : App → Event → App
step a (tokens result) = if a.client.refresh_in_flight then on_token result a else a
step a (sessions answer) = record a { provider = Session.on_session answer a.provider }
step a (renames answer) = record a { provider = Session.on_renamed answer a.provider }
step a (signs_in answer) = sign_in answer a
step a (signs_out fulfilled) = sign_out fulfilled a
step a fires = fire a
step a refuses = record a { client = refresh_access_token a.client }

unfoldable pub run : App → List Event → App
run a [] = a
run a (e ∷ es) = run (step a e) es
