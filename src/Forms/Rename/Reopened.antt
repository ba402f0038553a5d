-- ===== src/Forms/Rename/Reopened.antt =====
-- The names that the dialog of apps/web/src/components/account-menu.tsx asks for, and what its field
-- holds when it is opened again.
use youtube_rooms.Prelude.{
  ◌≡◌, refl, Bool, true, false, List, [], ◌∷◌, All, arith, ◌∙◌, if◌then◌else◌,
}
use youtube_rooms.Prelude.Text.{Text, trim, trim_twice}
use youtube_rooms.Protocol.Schema.{is_display_name}
use youtube_rooms.Session.{fits}
use youtube_rooms.Forms.Rename.{
  RenameDialog, blank, submit_name, on_rename, on_open_change, Event, opens, submits, types,
  reports, answers, step, run,
}

-- Neither typing nor an opening that the Dialog reports itself, which it does only for a trigger of its
-- own: the source gives it none, and opens it by its property.
abbrev pub is_quiet : Text × Event → Bool
is_quiet (current, types t) = false
is_quiet (current, reports next) = if next then false else true
is_quiet (current, e) = true

step-value :
    (current : Text) (d : RenameDialog) (e : Event)
    → is_quiet (current, e) ≡ true
    → (step current d e).value ≡ d.value
unfolding step submit_name on_rename on_open_change
step-value current d e h = ground arith

-- Whatever is cancelled, dismissed, saved or answered after something was typed, and whatever name the
-- user has by then, as long as nothing else is typed and the Dialog reports no opening itself: the
-- dialog that is opened again holds what was typed, not the current name.
pub run-opens :
    (d : RenameDialog) (es : List (Text × Event)) (current : Text)
    → All (λ (e : Text × Event). is_quiet e ≡ true) es
    → ((step current (run d es) opens).renaming ≡ true)
      × ((step current (run d es) opens).value ≡ d.value)
unfolding run step
run-opens d [] current h = (refl, refl)
run-opens d ((name, e) ∷ es) current h =
    let rest = run-opens (step name d e) es current h.1 in
    (rest.0, rest.1 ∙ step-value name d e h.0)

abbrev pub IsName : Text → Type 0
IsName t = (is_display_name t ≡ true) × (trim t ≡ t)

trim-IsName : (t : Text) → fits (trim t) ≡ true → IsName (trim t)
unfolding is_display_name
trim-IsName t h = (ground (arith, trim_twice t), trim_twice t)

step-asked :
    (current : Text) (d : RenameDialog) (e : Event)
    → All IsName d.asked
    → All IsName (step current d e).asked
unfolding step submit_name on_rename on_open_change
step-asked current d submits h = ground (arith, trim-IsName d.value)
step-asked current d (answers true) h = ground arith
step-asked current d (answers false) h = ground arith
step-asked current d e h = ground arith

run-asked :
    (d : RenameDialog) (es : List (Text × Event)) → All IsName d.asked → All IsName (run d es).asked
unfolding run
run-asked d [] h = h
run-asked d ((name, e) ∷ es) h = run-asked (step name d e) es (step-asked name d e h)

-- Every name that the dialog asks for is one that the schema takes, trimmed already.
pub run-IsName :
    (current : Text) (es : List (Text × Event)) → All IsName (run (blank current) es).asked
run-IsName current es = run-asked (blank current) es tt
