-- ===== src/Session.antt =====
-- apps/web/src/components/session-provider.tsx: who is signed in; and join-gate.tsx, which asks a
-- visitor for a name. The calls of the API are events with what they answer.
pub mod Gate
pub mod Tokens
use youtube_rooms.Prelude.{
  ℕ, ◌≤◌, Bool, true, false, not, ◌||◌, ◌&&◌, Option, none, some, List, [], ◌∷◌, ltb, length,
  if◌then◌else◌, is_some,
}
use youtube_rooms.Prelude.Text.{Text, trim}
use youtube_rooms.Protocol.Primitives.{UserSummary}

pub data SessionState : Type 0 where
  loading anonymous : SessionState
  authenticated : UserSummary → SessionState

-- SessionProvider: its state, and how far its first effect came.
pub data Start : Type 0 where
  refreshing fetching settled : Start

pub record SessionProvider : Type 0 where
  pub state : SessionState
  pub start : Start

abbrev pub blank : SessionProvider
blank = record { state = loading; start = refreshing }

-- The first effect: refreshAccessToken answers, then the request for the session does.
unfoldable pub on_refreshed : Bool → SessionProvider → SessionProvider
on_refreshed token p = elim p.start [
  | refreshing ↦
      if token
      then record p { start = fetching }
      else record p { start = settled; state = anonymous }
  | _ ↦ p
]

unfoldable pub on_session : Option UserSummary → SessionProvider → SessionProvider
on_session answer p = elim p.start [
  | fetching ↦ (elim answer [
    | none ↦ record p { start = settled; state = anonymous }
    | some user ↦ record p { start = settled; state = authenticated user }
  ])
  | _ ↦ p
]

-- signInAsGuest, signOut and rename, where the request has answered; signOut settles either way.
unfoldable pub on_guest : Option UserSummary → SessionProvider → SessionProvider
on_guest none p = p
on_guest (some user) p = record p { state = authenticated user }

unfoldable pub on_signed_out : Bool → SessionProvider → SessionProvider
on_signed_out fulfilled p = record p { state = anonymous }

unfoldable pub on_renamed : Option UserSummary → SessionProvider → SessionProvider
on_renamed none p = p
on_renamed (some user) p = record p { state = authenticated user }

-- JoinGate.
pub data Refusal : Type 0 where
  wrong_length not_signed_in : Refusal

pub record JoinGate : Type 0 where
  pub display_name : Text
  pub refusal : Option Refusal
  pub busy : Bool

-- submit, up to its request: the name that is asked for, where one is. The button is disabled while
-- it is busy.
abbrev pub fits : Text → Bool
fits trimmed = not (ltb (length trimmed) 2 || ltb 32 (length trimmed))

unfoldable pub submit : JoinGate → JoinGate × Option Text
submit g =
    let trimmed = trim g.display_name in
    if g.busy
    then (g, none)
    else if fits trimmed
    then (record g { busy = true; refusal = none }, some trimmed)
    else (record g { refusal = some wrong_length }, none)

-- submit, behind its request.
unfoldable pub on_answer : Bool → JoinGate → JoinGate
on_answer signed_in g = record g {
  busy = false;
  refusal = if signed_in then g.refusal else some not_signed_in;
}
