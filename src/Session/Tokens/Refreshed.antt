-- ===== src/Session/Tokens/Refreshed.antt =====
-- The token that the client holds, and what is left of it when the visitor signs out.
use youtube_rooms.Prelude.{
  ℕ, ◌≡◌, refl, Bool, true, false, ◌||◌, not, none, some, List, [], ◌∷◌, arith, is_some,
}
use youtube_rooms.Session
use youtube_rooms.Session.{SessionState, anonymous, loading}
use youtube_rooms.Api
use youtube_rooms.Api.{Client, refresh_access_token, schedule_refresh}
use youtube_rooms.Session.Tokens.{
  App, mount_app, on_token, sign_in, sign_out, fire, Event, tokens, signs_in, signs_out, fires,
  refuses, step, run,
}

-- A token that is held is renewed: its timer is armed, or a refresh is under way.
abbrev pub is_renewed : Client → Bool
is_renewed c = not (is_some c.access_token) || is_some c.refresh_timer || c.refresh_in_flight

step-is_renewed :
    (a : App) (e : Event) → is_renewed a.client ≡ true → is_renewed (step a e).client ≡ true
unfolding step on_token sign_in sign_out fire Api.on_refreshed refresh_access_token schedule_refresh
step-is_renewed a (tokens none) h = ground arith
step-is_renewed a (tokens (some t)) h = ground arith
step-is_renewed a (signs_in none) h = h
step-is_renewed a (signs_in (some t)) h = refl
step-is_renewed a (signs_out b) h = refl
step-is_renewed a fires h = ground arith
step-is_renewed a refuses h = ground arith
step-is_renewed a _ h = h

run_from-is_renewed :
    (a : App) (es : List Event) → is_renewed a.client ≡ true → is_renewed (run a es).client ≡ true
unfolding run
run_from-is_renewed a [] h = h
run_from-is_renewed a (e ∷ es) h = run_from-is_renewed (step a e) es (step-is_renewed a e h)

-- Whatever the server answers and whoever signs in or out: a token that the client holds has a timer
-- armed for its renewal, or is being renewed.
pub run-is_renewed : (es : List Event) → is_renewed (run mount_app es).client ≡ true
unfolding mount_app refresh_access_token Api.new
run-is_renewed es = run_from-is_renewed mount_app es refl

-- Signing out, whether or not its request is fulfilled, leaves the timer of a token armed: when it fires
-- and the server answers with a token, the client holds that token, and a new timer, while the visitor
-- is shown as signed out.
pub sign_out-fire :
    (a : App) (fulfilled : Bool) (ms token expires_in : ℕ)
    → a.client.refresh_timer ≡ some ms
    → a.client.refresh_in_flight ≡ false
    → a.provider.start ≡ Session.settled
    → let b = run a (signs_out fulfilled ∷ fires ∷ tokens (some (token, expires_in)) ∷ []) in
      (b.provider.state ≡ anonymous)
      × (b.client.access_token ≡ some token)
      × (is_some b.client.refresh_timer ≡ true)
unfolding run step on_token sign_out fire Api.on_refreshed refresh_access_token schedule_refresh
    Session.on_refreshed Session.on_signed_out
sign_out-fire a fulfilled ms token expires_in t f s = ground (arith, t, f, s)
