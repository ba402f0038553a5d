-- ===== src/Api.antt =====
-- apps/web/src/lib/api.ts: the calls of the server, and the refresh of the access token.
--
-- A call waits for its response, or for the refresh that a 401 asked for; the responses, a fetch
-- that failed included, are the events of a state machine. `started` and `settled` count refreshes.
pub mod Refresh
pub mod Errors
pub mod Retry
use youtube_rooms.Prelude.{
  ℕ, suc, ◌+◌, ◌*◌, ◌/◌, max, Bool, true, false, not, ◌&&◌, Option, none, some, List, [], ◌∷◌, ◌++◌,
  map, ◌==◌, if◌then◌else◌, get_elem?, set,
}

-- How far a call of api came; a fetch that threw, or a response that is an error, rejects it.
pub data Phase : Type 0 where
  fetching awaiting_refresh resolved rejected : Phase

-- A call: skipAuthRetry, and how often fetch was called for it.
pub record Call : Type 0 where
  pub skip_auth_retry : Bool
  pub phase : Phase
  pub fetches : ℕ

-- The variables of the module; `refresh_timer` is the delay of the timeout that is armed.
pub record Client : Type 0 where
  pub access_token : Option ℕ
  pub refresh_in_flight : Bool
  pub refresh_timer : Option ℕ
  pub started : ℕ
  pub settled : ℕ
  pub calls : List Call

unfoldable pub new : Client
new = record {
  access_token = none;
  refresh_in_flight = false;
  refresh_timer = none;
  started = 0;
  settled = 0;
  calls = [];
}

-- `response.ok`
abbrev pub is_ok : ℕ → Bool
is_ok status = status / 100 == 2

-- api, up to its wait.
unfoldable pub api : Bool → Client → Client
api skip c = record c {
  calls = c.calls ++ record { skip_auth_retry = skip; phase = fetching; fetches = 1 } ∷ [];
}

-- refreshAccessToken, up to its wait.
unfoldable pub refresh_access_token : Client → Client
refresh_access_token c =
    if c.refresh_in_flight
    then c
    else record c { refresh_in_flight = true; started = suc c.started }

-- A response to a call that fetches, by its status; `none` is a fetch that threw.
unfoldable pub respond : ℕ → Option ℕ → Call → Client → Client
respond i none call c = record c { calls = set c.calls i (record call { phase = rejected }) }
respond i (some status) call c =
    if (status == 401) && not call.skip_auth_retry
    then refresh_access_token
        (record c { calls = set c.calls i (record call { phase = awaiting_refresh }) })
    else record c {
      calls = set c.calls i (record call { phase = if is_ok status then resolved else rejected });
    }

at_phase : Phase → ℕ → Option ℕ → Call → Client → Client
at_phase fetching i response call c = respond i response call c
at_phase _ i response call c = c

at_call : Option Call → ℕ → Option ℕ → Client → Client
at_call none i response c = c
at_call (some call) i response c = at_phase call.phase i response call c

-- api, behind its first wait.
unfoldable pub on_response : ℕ → Option ℕ → Client → Client
unfolding at_call at_phase
on_response i response c = at_call (get_elem? c.calls i) i response c

-- The delay before a token is refreshed, which lives for a number of seconds.
abbrev pub refresh_delay_ms : ℕ → ℕ
refresh_delay_ms expires_in = max 30000 (expires_in * 800)

-- scheduleRefresh
unfoldable pub schedule_refresh : ℕ → Client → Client
schedule_refresh expires_in c = record c { refresh_timer = some (refresh_delay_ms expires_in) }

-- cancelScheduledRefresh
unfoldable pub cancel_scheduled_refresh : Client → Client
cancel_scheduled_refresh c = record c { refresh_timer = none }

resume_at : Phase → Call → Call
resume_at awaiting_refresh call = record call {
  skip_auth_retry = true;
  phase = fetching;
  fetches = suc call.fetches;
}
resume_at _ call = call

-- A call that waited goes on: it is repeated without a second try.
unfoldable pub resume : Call → Call
unfolding resume_at
resume call = resume_at call.phase call

give_up_at : Phase → Call → Call
give_up_at awaiting_refresh call = record call { phase = rejected }
give_up_at _ call = call

-- A call that waited is rejected, by its 401.
unfoldable pub give_up : Call → Call
unfolding give_up_at
give_up call = give_up_at call.phase call

-- refreshAccessToken, behind its wait: a token and its life in seconds, or a failure.
unfoldable pub on_refreshed : Option (ℕ × ℕ) → Client → Client
on_refreshed none c =
    if c.refresh_in_flight
    then record c {
      access_token = none;
      refresh_in_flight = false;
      settled = suc c.settled;
      calls = map give_up c.calls;
    }
    else c
on_refreshed (some t) c =
    if c.refresh_in_flight
    then schedule_refresh t.1 (record c {
      access_token = some t.0;
      refresh_in_flight = false;
      settled = suc c.settled;
      calls = map resume c.calls;
    })
    else c

pub data Event : Type 0 where
  calls : Bool → Event
  responds : ℕ → Option ℕ → Event
  refreshes cancels : Event
  settles : Option (ℕ × ℕ) → Event

unfoldable pub step : Client → Event → Client
step c (Event.calls skip) = api skip c
step c (Event.responds i response) = on_response i response c
step c Event.refreshes = refresh_access_token c
step c Event.cancels = cancel_scheduled_refresh c
step c (Event.settles result) = on_refreshed result c

unfoldable pub run : Client → List Event → Client
run c [] = c
run c (e ∷ es) = run (step c e) es
