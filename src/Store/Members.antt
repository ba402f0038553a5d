-- ===== src/Store/Members.antt =====
-- Who is in the room, according to the reducer of apps/web/src/stores/room-store.ts.
use youtube_rooms.Prelude.{
  ℕ, ◌≡◌, refl, subst, Bool, true, not, ◌||◌, ◌&&◌, List, [], ◌∷◌, ◌++◌, ◌==◌, any, filter,
  Bool-cases, inl, inr, arith, ==_iff,
}
use youtube_rooms.Protocol.Primitives.{Participant}
use youtube_rooms.Protocol.Server.{ServerMessage}
use youtube_rooms.Store.{RoomState, is_user, update_user, apply}

abbrev pub present : ℕ → List Participant → Bool
present id = any (is_user id)

-- What a message says about the presence of one user.
abbrev pub present_after : ServerMessage → ℕ → Bool → Bool
present_after (ServerMessage.ready r) id before = present id r.participants
present_after (ServerMessage.participant_joined p) id before = p.user.id == id || before
present_after (ServerMessage.participant_left left) id before = not (left == id) && before
present_after _ id before = before

pub present-append :
    (id : ℕ) (ps : List Participant) (p : Participant)
    → present id (ps ++ p ∷ []) ≡ (p.user.id == id || present id ps)
present-append id [] p = ground arith
present-append id (q ∷ ps) p = ground (arith, present-append id ps p)

pub present-filter :
    (id left : ℕ) (ps : List Participant)
    → present id (filter (λ p. not (is_user left p)) ps) ≡ (not (left == id) && present id ps)
present-filter id left [] = ground arith
present-filter id left (q ∷ ps) = ground (arith, present-filter id left ps)

pub present-update_user :
    (id changed : ℕ) (f : Participant → Participant) (ps : List Participant)
    → ((p : Participant) → is_user changed p ≡ true → (f p).user.id ≡ p.user.id)
    → present id (update_user changed f ps) ≡ present id ps
present-update_user id changed f [] h = refl
present-update_user id changed f (q ∷ ps) h =
    ground (arith, h q, present-update_user id changed f ps h)

present_known :
    (id : ℕ) (ps : List Participant) (p : Participant)
    → present p.user.id ps ≡ true
    → present id ps ≡ (p.user.id == id || present id ps)
present_known id ps p h = elim (Bool-cases (p.user.id == id)) [
  | inl e ↦ rw e (subst (λ k. present k ps ≡ true) ((==_iff p.user.id id).0 e) h)
  | inr e ↦ rw e
]

-- Each message changes the presence of each user in the one way that its meaning asks for; only a
-- snapshot, an arrival and a departure change it at all.
pub present-apply :
    (m : ServerMessage) (s : RoomState) (id : ℕ)
    → present id (apply m s).participants ≡ present_after m id (present id s.participants)
unfolding apply
present-apply (ServerMessage.ready r) s id = refl
present-apply (ServerMessage.participant_joined p) s id =
    ground (arith, present-append id s.participants p, present_known id s.participants p)
present-apply (ServerMessage.participant_left left) s id = present-filter id left s.participants
present-apply (ServerMessage.participant_updated q) s id =
    present-update_user id q.user.id (λ p. q) s.participants (λ p h. ground arith)
present-apply (ServerMessage.voice_state changed muted in_voice) s id =
    present-update_user id changed _ s.participants (λ p h. refl)
present-apply (ServerMessage.voice_peer_left changed) s id =
    present-update_user id changed _ s.participants (λ p h. refl)
present-apply _ s id = ground arith
