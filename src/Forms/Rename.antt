-- ===== src/Forms/Rename.antt =====
-- apps/web/src/components/account-menu.tsx: the menu of the account and the dialog for a name.
pub mod Reopened
use youtube_rooms.Prelude.{
  Bool, true, false, not, ◌&&◌, Option, none, some, List, [], ◌∷◌, if◌then◌else◌,
}
use youtube_rooms.Prelude.Text.{Text, trim}
use youtube_rooms.Protocol.Primitives.{AccountKind, google, guest, system}
use youtube_rooms.Session.{SessionState, loading, anonymous, authenticated, fits}

-- What AccountMenu shows, and the entries of its menu.
pub data Item : Type 0 where
  change_name sign_in_with_google sign_out : Item

pub data Shown : Type 0 where
  placeholder sign_in : Shown
  menu : List Item → Shown

abbrev pub items : AccountKind → List Item
items guest = change_name ∷ sign_in_with_google ∷ sign_out ∷ []
items google = change_name ∷ sign_out ∷ []
items system = change_name ∷ sign_out ∷ []

unfoldable pub shown : SessionState → Shown
shown loading = placeholder
shown anonymous = sign_in
shown (authenticated user) = menu (items user.kind)

pub data Problem : Type 0 where
  wrong_length not_changed : Problem

-- `renaming` of AccountMenu, the state of RenameDialog, and the names it asked for, newest first.
pub record RenameDialog : Type 0 where
  pub renaming : Bool
  pub value : Text
  pub error : Option Problem
  pub busy : Bool
  pub asked : List Text

-- The first render, for a user's name.
abbrev pub blank : Text → RenameDialog
blank current = record { renaming = false; value = current; error = none; busy = false; asked = [] }

-- submit, up to its request.
unfoldable pub submit_name : RenameDialog → RenameDialog
submit_name d =
    if fits (trim d.value)
    then record d { busy = true; error = none; asked = trim d.value ∷ d.asked }
    else record d { error = some wrong_length }

-- submit, behind its request.
unfoldable pub on_rename : Bool → RenameDialog → RenameDialog
on_rename true d = record d { busy = false; renaming = false }
on_rename false d = record d { busy = false; error = some not_changed }

-- What the Dialog calls where it opens or closes by itself.
unfoldable pub on_open_change : Text → Bool → RenameDialog → RenameDialog
on_open_change current next d = record d {
  value = if next then current else d.value;
  error = none;
  renaming = next;
}

-- The item of the menu, the field, both buttons, the Dialog's calls, and the answer.
pub data Event : Type 0 where
  opens cancels submits : Event
  types : Text → Event
  reports answers : Bool → Event

abbrev pub in_dialog : (RenameDialog → RenameDialog) → RenameDialog → RenameDialog
in_dialog f d = if d.renaming then f d else d

-- An event, for the name that the user has; Save is disabled while the dialog is busy.
unfoldable pub step : Text → RenameDialog → Event → RenameDialog
step current d opens = record d { renaming = true }
step current d cancels = in_dialog (λ (e : RenameDialog). record e { renaming = false }) d
step current d submits = if d.renaming && not d.busy then submit_name d else d
step current d (types t) = in_dialog (λ (e : RenameDialog). record e { value = t }) d
step current d (reports next) = on_open_change current next d
step current d (answers done) = if d.busy then on_rename done d else d

unfoldable pub run : RenameDialog → List (Text × Event) → RenameDialog
run d [] = d
run d ((current, e) ∷ es) = run (step current d e) es
