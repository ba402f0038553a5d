-- ===== src/Forms/Directory/Searched.antt =====
-- What apps/web/src/routes/rooms.index.tsx asks for of what is typed.
use youtube_rooms.Prelude.{ℕ, ◌≤◌, ◌≡◌, refl, Option, none, some, List, [], ◌∷◌, arith, leb, length}
use youtube_rooms.Prelude.Text.{Text, trim, trim_start, trim_end}
use youtube_rooms.Debounce.{call, pass}
use youtube_rooms.Protocol.Rest.{is_room_list_query}
use youtube_rooms.Forms.Directory.{
  RoomDirectory, blank, wait_ms, set_query, type_draft, pass_time, toggle_category, params, Event,
  step, run,
}

-- A timeout that is armed holds the draft and has at most the wait left; where none is, the query is
-- the draft, trimmed.
abbrev pub IsFollowed : Text → Text → Option (ℕ × Text) → Type 0
IsFollowed draft query none = query ≡ trim draft
IsFollowed draft query (some t) = (t.0 ≤ wait_ms) × (t.1 ≡ draft)

record Inv (d : RoomDirectory) : Type 0 where
  pub followed : IsFollowed d.draft d.query d.commit.timer
  pub kept : set_query d.commit.called d.query ≡ d.query

set_query_twice :
    (called : List Text) (query : Text)
    → set_query called (set_query called query) ≡ set_query called query
set_query_twice called query = ground arith

pass_time-IsFollowed :
    (ms : ℕ) (d : RoomDirectory) (timer : Option (ℕ × Text))
    → d.commit.timer ≡ timer
    → IsFollowed d.draft d.query timer
    → set_query d.commit.called d.query ≡ d.query
    → IsFollowed (pass_time ms d).draft (pass_time ms d).query (pass_time ms d).commit.timer
unfolding pass_time pass
pass_time-IsFollowed ms d none e h k = ground (arith, e, h, k)
pass_time-IsFollowed ms d (some t) e h k = ground (arith, e, h)

pass_time-Inv : (ms : ℕ) (d : RoomDirectory) → Inv d → Inv (pass_time ms d)
unfolding pass_time
pass_time-Inv ms d h = record {
  followed = pass_time-IsFollowed ms d d.commit.timer refl h.followed h.kept;
  kept = set_query_twice (pass ms d.commit).called d.query;
}

step-Inv : (d : RoomDirectory) (e : Event) → Inv d → Inv (step d e)
unfolding step type_draft toggle_category call
step-Inv d (Event.types t) h = record { followed = (omega arith, refl); kept = h.kept }
step-Inv d (Event.passes ms) h = pass_time-Inv ms d h
step-Inv d (Event.picks_sort s) h = record { followed = h.followed; kept = h.kept }
step-Inv d (Event.presses_category c) h = record { followed = h.followed; kept = h.kept }

run-Inv : (d : RoomDirectory) (es : List Event) → Inv d → Inv (run d es)
unfolding run
run-Inv d [] h = h
run-Inv d (e ∷ es) h = run-Inv (step d e) es (step-Inv d e h)

blank-Inv : Inv blank
unfolding trim trim_start trim_end
blank-Inv = record { followed = refl; kept = refl }

-- The wait has passed, so nothing is armed any more.
pass_time-settles :
    (ms : ℕ) (d : RoomDirectory) (timer : Option (ℕ × Text))
    → wait_ms ≤ ms
    → d.commit.timer ≡ timer
    → IsFollowed d.draft d.query timer
    → set_query d.commit.called d.query ≡ d.query
    → (pass_time ms d).query ≡ trim d.draft
unfolding pass_time pass
pass_time-settles ms d none w e h k = ground (arith, e, h, k)
pass_time-settles ms d (some t) w e h k = ground (arith, e, h)

params-is_room_list_query :
    (d : RoomDirectory) → is_room_list_query (params d) ≡ leb (length d.query) 80
unfolding params is_room_list_query
params-is_room_list_query d = ground arith

-- However the visitor typed, sorted and filtered: once 300 ms have passed since, the directory asks for
-- the text that stands in the field, trimmed; and the schema takes its parameters exactly where that
-- text is no longer than 80, which the field does not see to.
pub run-query :
    (es : List Event) (ms : ℕ)
    → 300 ≤ ms
    → let d = run blank es in
      let asked = step d (Event.passes ms) in
      (asked.query ≡ trim d.draft)
      × (is_room_list_query (params asked) ≡ leb (length (trim d.draft)) 80)
unfolding step
run-query es ms w =
    let d = run blank es in
    let h = run-Inv blank es blank-Inv in
    let settled = pass_time-settles ms d d.commit.timer w refl h.followed h.kept in
    (settled, rw (params-is_room_list_query (pass_time ms d), settled) refl)
