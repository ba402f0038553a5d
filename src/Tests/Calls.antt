-- ===== src/Tests/Calls.antt =====
-- The calls of the server, and the session over them.
use youtube_rooms.Prelude.{◌≡◌, refl, true, false, some, List, [], ◌∷◌, none}
use youtube_rooms.Api.{
  Call, Event, calls, responds, settles, resolved, new, run, step, api, on_response, respond,
  refresh_access_token, on_refreshed, schedule_refresh, resume,
}
use youtube_rooms.Api.Refresh.{run-bounded}
use youtube_rooms.Session.Tokens
use youtube_rooms.Session.Tokens.{mount_app}
use youtube_rooms.Session.Tokens.Refreshed.{is_renewed, run-is_renewed}
use youtube_rooms.Tests.Fixtures.{user}

-- Two calls are refused, one refresh answers both, and one of them is repeated with success.
abbrev two_refused : List Event
two_refused =
    calls false
    ∷ calls false
    ∷ responds 0 (some 401)
    ∷ responds 1 (some 401)
    ∷ settles (some (9, 900))
    ∷ responds 1 (some 200)
    ∷ []

abbrev repeated : Call
repeated = record { skip_auth_retry = true; phase = resolved; fetches = 2 }

run-bounded_example : (run new two_refused).started ≡ 1
unfolding new run step api on_response refresh_access_token on_refreshed schedule_refresh resume
    respond
run-bounded_example = (run-bounded two_refused 1 repeated refl).0

-- No session is found, a guest signs in, the timer fires and is answered, and the guest signs out.
abbrev visit : List Tokens.Event
visit =
    Tokens.tokens none
    ∷ Tokens.signs_in (some (user 4, 9, 900))
    ∷ Tokens.fires
    ∷ Tokens.tokens (some (10, 900))
    ∷ Tokens.signs_out true
    ∷ []

run-is_renewed_example : is_renewed (Tokens.run mount_app visit).client ≡ true
run-is_renewed_example = run-is_renewed visit
