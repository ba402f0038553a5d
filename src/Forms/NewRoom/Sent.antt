-- ===== src/Forms/NewRoom/Sent.antt =====
-- What the form of apps/web/src/routes/rooms.new.tsx sends, and when.
use youtube_rooms.Prelude.{
  ℕ, ◌+◌, ◌≤◌, ◌≡◌, refl, Bool, true, false, ◌&&◌, List, [], ◌∷◌, All, arith, ltb, length,
  if◌then◌else◌, Bool-cases, inl, inr,
}
use youtube_rooms.Prelude.Text.{trim, trim_twice, length-trim}
use youtube_rooms.Protocol.Rest.{
  CreateRoomRequest, optional, is_password, is_max_participants, is_room_name,
  is_create_room_request,
}
use youtube_rooms.Session.{SessionState}
use youtube_rooms.Forms.NewRoom.{
  Screen, spinner, form, sign_in_to_create, screen, NewRoomPage, blank, create_body, submit_room,
  on_created, created, Event, types_name, submits, answers, on_form, on_screen, step, run, Answer,
}

-- What the schema makes of a body that the form sends.
abbrev pub IsSendable : CreateRoomRequest → Type 0
IsSendable b =
    (is_room_name b.name ≡ true)
    × (trim b.name ≡ b.name)
    × (is_create_room_request b
        ≡ (optional is_password b.password && is_max_participants b.max_participants))

record Inv (p : NewRoomPage) : Type 0 where
  pub fits : length p.name ≤ 60
  pub sendable : All IsSendable p.sent

create_body-IsSendable :
    (p : NewRoomPage)
    → length p.name ≤ 60
    → ltb (length (trim p.name)) 2 ≡ false
    → IsSendable (create_body p)
unfolding create_body is_create_room_request
create_body-IsSendable p h l = (
  ground (arith, trim_twice p.name, length-trim p.name),
  trim_twice p.name,
  ground (arith, trim_twice p.name, length-trim p.name),
)

submit_room-Inv : (p : NewRoomPage) → p.busy ≡ false → Inv p → Inv (submit_room p)
unfolding submit_room
submit_room-Inv p b h = elim (Bool-cases (ltb (length (trim p.name)) 2)) [
  | inl short ↦ rw short (record { fits = h.fits; sendable = h.sendable })
  | inr long ↦
      rw long
        (record { fits = h.fits; sendable = (create_body-IsSendable p h.fits long, h.sendable) })
]

-- The field of the name holds no more than its maxLength; every other event is free.
abbrev pub FitsField {ℓ} : {N : Type ℓ} → SessionState × Event N → Type 0
FitsField (session, types_name t) = length t ≤ 60
FitsField (session, e) = Unit

-- How often the button was pressed under a session for which the page is the form.
abbrev pub submission {ℓ} : {N : Type ℓ} → Screen → Event N → ℕ
submission form submits = 1
submission s e = 0

abbrev pub submissions {ℓ} : {N : Type ℓ} → List (SessionState × Event N) → ℕ
submissions [] = 0
submissions ((session, e) ∷ es) = submission (screen session) e + submissions es

-- The requests that have answered, and the one that is out.
abbrev pending : NewRoomPage → ℕ
pending p = p.answered + (if p.busy then 1 else 0)

-- A press while the form is busy does nothing.
press-Inv : (p : NewRoomPage) (b : Bool) → p.busy ≡ b → Inv p → Inv (if b then p else submit_room p)
press-Inv p true e h = h
press-Inv p false e h = submit_room-Inv p e h

blank-Inv : Inv blank
blank-Inv = record { fits = omega arith; sendable = tt }

module _ {ℓ} {N : Type ℓ} where
  on_form-Inv :
      (session : SessionState) (p : NewRoomPage) (e : Event N)
      → FitsField (session, e)
      → Inv p
      → Inv (on_form p e)
  unfolding on_form
  on_form-Inv session p submits f h = press-Inv p p.busy refl h
  on_form-Inv session p e f h = ground (arith, h.fits, h.sendable)

  on_screen-Inv :
      (s : Screen) (session : SessionState) (p : NewRoomPage) (e : Event N)
      → FitsField (session, e)
      → Inv p
      → Inv (on_screen s p e)
  on_screen-Inv form session p e f h = on_form-Inv session p e f h
  on_screen-Inv _ session p e f h = h

  on_created-Inv :
      (a : Answer N) (p : NewRoomPage) (b : Bool)
      → p.busy ≡ b
      → Inv p
      → Inv (if b then on_created a p else p)
  unfolding on_created
  on_created-Inv a p false e h = h
  on_created-Inv (created slug) p true e h = record { fits = h.fits; sendable = h.sendable }
  on_created-Inv _ p true e h = record { fits = h.fits; sendable = h.sendable }

  step-Inv :
      (session : SessionState) (p : NewRoomPage) (e : Event N)
      → FitsField (session, e)
      → Inv p
      → Inv (step session p e)
  unfolding step
  step-Inv session p (answers a) f h = on_created-Inv a p p.busy refl h
  step-Inv session p e f h = on_screen-Inv (screen session) session p e f h

  run-Inv :
      (p : NewRoomPage) (es : List (SessionState × Event N))
      → All FitsField es
      → Inv p
      → Inv (run p es)
  unfolding run
  run-Inv p [] f h = h
  run-Inv p ((session, e) ∷ es) f h = run-Inv (step session p e) es f.1 (step-Inv session p e f.0 h)

  on_screen-sent :
      (s : Screen) (p : NewRoomPage) (e : Event N)
      → length (on_screen s p e).sent ≤ length p.sent + submission s e
  unfolding on_form submit_room
  on_screen-sent form p e = ground arith
  on_screen-sent spinner p e = omega arith
  on_screen-sent (sign_in_to_create b) p e = omega arith

  step-sent :
      (session : SessionState) (p : NewRoomPage) (e : Event N)
      → length (step session p e).sent ≤ length p.sent + submission (screen session) e
  unfolding step on_created
  step-sent session p (answers a) = ground arith
  step-sent session p e = on_screen-sent (screen session) p e

  run-sent :
      (p : NewRoomPage) (es : List (SessionState × Event N))
      → length (run p es).sent ≤ length p.sent + submissions es
  unfolding run
  run-sent p [] = omega arith
  run-sent p ((session, e) ∷ es) =
      omega (arith, run-sent (step session p e) es, step-sent session p e)

  -- Where the field of the name holds no more than 60 units, every body that the page sends has a name
  -- that the schema takes, trimmed already; and the schema takes the body exactly where its password,
  -- if it has one, is 4 to 128 units long and the number of members is whole and from 2 to 100.
  pub run-IsSendable :
      (es : List (SessionState × Event N)) → All FitsField es → All IsSendable (run blank es).sent
  run-IsSendable es f = (run-Inv blank es f blank-Inv).sendable

  pending-on_screen :
      (s : Screen) (p : NewRoomPage) (e : Event N)
      → pending p ≡ length p.sent
      → pending (on_screen s p e) ≡ length (on_screen s p e).sent
  unfolding on_form submit_room
  pending-on_screen form p e h = ground arith
  pending-on_screen spinner p e h = h
  pending-on_screen (sign_in_to_create b) p e h = h

  pending-step :
      (session : SessionState) (p : NewRoomPage) (e : Event N)
      → pending p ≡ length p.sent
      → pending (step session p e) ≡ length (step session p e).sent
  unfolding step on_created
  pending-step session p (answers a) h = ground arith
  pending-step session p e h = pending-on_screen (screen session) p e h

  pending-run :
      (p : NewRoomPage) (es : List (SessionState × Event N))
      → pending p ≡ length p.sent
      → pending (run p es) ≡ length (run p es).sent
  unfolding run
  pending-run p [] h = h
  pending-run p ((session, e) ∷ es) h =
      pending-run (step session p e) es (pending-step session p e h)

  -- The page asks for a room at most once for each press of its button under an account that is no
  -- guest's, so never for a guest or a visitor; and all of its requests have answered but the one, at
  -- most, that it is busy with.
  pub run-asks :
      (es : List (SessionState × Event N))
      → (length (run blank es).sent ≤ submissions es)
        × ((run blank es).answered + (if (run blank es).busy then 1 else 0)
            ≡ length (run blank es).sent)
  run-asks es = (omega (arith, run-sent blank es), pending-run blank es refl)
