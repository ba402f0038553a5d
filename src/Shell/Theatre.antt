-- ===== src/Shell/Theatre.antt =====
-- useTheatreMode and useErrorToasts of apps/web/src/components/room/room-shell.tsx.
use youtube_rooms.Prelude.{
  ℕ, ◌≡◌, Bool, true, false, Option, none, some, List, [], ◌∷◌, ◌==◌, if◌then◌else◌, arith,
}
use youtube_rooms.Prelude.Text.{Text, codes, same_text}
use youtube_rooms.Store.{RoomState}

-- The state of useTheatreMode, and the item of the storage; `storage` says that there is one.
pub record Theatre : Type 0 where
  pub theatre : Bool
  pub storage : Bool
  pub stored : Option Text

abbrev pub blank : Bool → Option Text → Theatre
blank storage stored = record { theatre = false; storage = storage; stored = stored }

abbrev pub theatre_text : Bool → Text
theatre_text theatre = if theatre then codes "1" else codes "0"

abbrev pub is_one : Option Text → Bool
is_one none = false
is_one (some t) = same_text t (codes "1")

-- The effect on the state.
abbrev pub save : Theatre → Theatre
save t = if t.storage then record t { stored = some (theatre_text t.theatre) } else t

-- setTheatre, and the effect that follows.
unfoldable pub set_theatre : Bool → Theatre → Theatre
set_theatre next t = save (record t { theatre = next })

-- The mount: the item is read, the first state is saved over it, and what was read becomes the state.
unfoldable pub mount : Theatre → Theatre
unfolding set_theatre
mount t = if t.storage then set_theatre (is_one t.stored) (save t) else t

unfoldable pub toggles : List Bool → Theatre → Theatre
toggles [] t = t
toggles (next ∷ rest) t = toggles rest (set_theatre next t)

abbrev pub remount : Theatre → Theatre
remount t = mount (blank t.storage t.stored)

-- What is stored is the state.
abbrev pub IsSaved : Theatre → Type 0
IsSaved t = (t.storage ≡ true) × (is_one t.stored ≡ t.theatre)

set_theatre-IsSaved : (next : Bool) (t : Theatre) → IsSaved t → IsSaved (set_theatre next t)
unfolding set_theatre
set_theatre-IsSaved next t h = ground arith

toggles-IsSaved : (nexts : List Bool) (t : Theatre) → IsSaved t → IsSaved (toggles nexts t)
unfolding toggles
toggles-IsSaved [] t h = h
toggles-IsSaved (next ∷ rest) t h =
    toggles-IsSaved rest (set_theatre next t) (set_theatre-IsSaved next t h)

mount-IsSaved : (stored : Option Text) → IsSaved (mount (blank true stored))
unfolding mount set_theatre
mount-IsSaved stored = ground arith

remount-same : (t : Theatre) → IsSaved t → (remount t).theatre ≡ t.theatre
unfolding mount set_theatre
remount-same t h = ground arith

-- Where the storage works, the next visit starts in the mode that this one ended in, although the
-- mount first saves the mode of its first render.
toggles-remount :
    (stored : Option Text) (nexts : List Bool)
    → (remount (toggles nexts (mount (blank true stored)))).theatre
      ≡ (toggles nexts (mount (blank true stored))).theatre
toggles-remount stored nexts =
    remount-same (toggles nexts (mount (blank true stored)))
      (toggles-IsSaved nexts (mount (blank true stored)) (mount-IsSaved stored))

-- useErrorToasts: the error of the store is shown and taken away; the empty text is no error.
unfoldable pub toast_error : List ℕ → RoomState → List ℕ × RoomState
toast_error toasts store = elim store.last_error [
  | none ↦ (toasts, store)
  | some message ↦
      if message == 0
      then (toasts, store)
      else (message ∷ toasts, record store { last_error = none })
]
