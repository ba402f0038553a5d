-- ===== src/Store/Invariant.antt =====
-- What holds of the state of apps/web/src/stores/room-store.ts between two messages.
use youtube_rooms.Prelude.{
  ℕ, ◌-◌, ◌≤◌, ◌≡◌, refl, sym, subst, ◌∙◌, true, false, not, ◌||◌, List, [], ◌∷◌, ◌++◌, ◌==◌,
  if◌then◌else◌, length, any, filter, All, take_last, Bool-cases, inl, inr, arith, ==_iff,
  length-append, length-drop, length-map,
}
use youtube_rooms.Protocol.Primitives.{Participant, ChatMessage}
use youtube_rooms.Protocol.Server.{ServerMessage}
use youtube_rooms.Store.{
  RoomState, is_user, has_id, update_user, remove_from, add_to, apply, apply_all, initial,
  max_messages,
}
use youtube_rooms.Store.Chat.{length-append_message}
use youtube_rooms.Store.Members.{present, present-append, present-filter, present-update_user}

-- No two participants are the same user.
abbrev pub IsRoster : List Participant → Type 0
IsRoster [] = Unit
IsRoster (p ∷ ps) = (present p.user.id ps ≡ false) × IsRoster ps

-- No id stands twice.
abbrev pub IsIdSet : List ℕ → Type 0
IsIdSet [] = Unit
IsIdSet (j ∷ js) = (any (λ k. k == j) js ≡ false) × IsIdSet js

pub record Inv (s : RoomState) : Type 0 where
  pub roster : IsRoster s.participants
  pub typists : IsIdSet s.typing
  pub messages_capped : length s.messages ≤ max_messages
  pub reactions_capped : length s.reactions ≤ 25

-- What the server owes a client that it sends a snapshot.
abbrev pub IsFit : ServerMessage → Type 0
IsFit (ServerMessage.ready r) = IsRoster r.participants × (length r.recent_messages ≤ max_messages)
IsFit _ = Unit

append-IsRoster :
    (ps : List Participant) (p : Participant)
    → IsRoster ps
    → present p.user.id ps ≡ false
    → IsRoster (ps ++ p ∷ [])
append-IsRoster [] p h a = (refl, tt)
append-IsRoster (q ∷ ps) p h a =
    (ground (arith, present-append q.user.id ps p), append-IsRoster ps p h.1 (ground arith))

filter-IsRoster :
    (left : ℕ) (ps : List Participant)
    → IsRoster ps
    → IsRoster (filter (λ p. not (is_user left p)) ps)
filter-IsRoster left [] h = tt
filter-IsRoster left (q ∷ ps) h =
    ground (arith, present-filter q.user.id left ps, filter-IsRoster left ps h.1)

update_user-IsRoster :
    (changed : ℕ) (f : Participant → Participant) (ps : List Participant)
    → ((p : Participant) → is_user changed p ≡ true → (f p).user.id ≡ p.user.id)
    → IsRoster ps
    → IsRoster (update_user changed f ps)
update_user-IsRoster changed f [] h r = tt
update_user-IsRoster changed f (q ∷ ps) h r = elim (Bool-cases (is_user changed q)) [
  | inl e ↦ rw e (
    subst (λ k. present k updated ≡ false) (sym (h q e)) absent,
    update_user-IsRoster changed f ps h r.1,
  )
  | inr e ↦ rw e (absent, update_user-IsRoster changed f ps h r.1)
]
  where
    updated : List Participant
    updated = update_user changed f ps

    absent : present q.user.id updated ≡ false
    absent = present-update_user q.user.id changed f ps h ∙ r.0

any-append :
    (j k : ℕ) (js : List ℕ) → any (λ i. i == j) (js ++ k ∷ []) ≡ (k == j || any (λ i. i == j) js)
any-append j k [] = ground arith
any-append j k (i ∷ js) = ground (arith, any-append j k js)

append-IsIdSet :
    (js : List ℕ) (k : ℕ) → IsIdSet js → any (λ i. i == k) js ≡ false → IsIdSet (js ++ k ∷ [])
append-IsIdSet [] k h a = (refl, tt)
append-IsIdSet (j ∷ js) k h a =
    (ground (arith, any-append j k js), append-IsIdSet js k h.1 (ground arith))

add_to-IsIdSet : (js : List ℕ) (k : ℕ) → IsIdSet js → IsIdSet (add_to js k)
unfolding add_to
add_to-IsIdSet js k h = ground (arith, append-IsIdSet js k h)

any-remove_from :
    (j k : ℕ) (js : List ℕ)
    → any (λ i. i == j) js ≡ false
    → any (λ i. i == j) (remove_from js k) ≡ false
unfolding remove_from
any-remove_from j k [] h = refl
any-remove_from j k (i ∷ js) h = ground (arith, any-remove_from j k js)

remove_from-IsIdSet : (js : List ℕ) (k : ℕ) → IsIdSet js → IsIdSet (remove_from js k)
unfolding remove_from
remove_from-IsIdSet [] k h = tt
remove_from-IsIdSet (j ∷ js) k h =
    ground (arith, any-remove_from j k js h.0, remove_from-IsIdSet js k h.1)

apply-IsRoster :
    (m : ServerMessage) (s : RoomState)
    → IsFit m
    → IsRoster s.participants
    → IsRoster (apply m s).participants
unfolding apply
apply-IsRoster (ServerMessage.ready r) s f h = f.0
apply-IsRoster (ServerMessage.participant_joined p) s f h =
    ground (arith, append-IsRoster s.participants p h)
apply-IsRoster (ServerMessage.participant_left left) s f h = filter-IsRoster left s.participants h
apply-IsRoster (ServerMessage.participant_updated q) s f h =
    update_user-IsRoster q.user.id (λ p. q) s.participants (λ p e. sym ((==_iff _ _).0 e)) h
apply-IsRoster (ServerMessage.voice_state changed muted in_voice) s f h =
    update_user-IsRoster changed _ s.participants (λ p e. refl) h
apply-IsRoster (ServerMessage.voice_peer_left changed) s f h =
    update_user-IsRoster changed _ s.participants (λ p e. refl) h
apply-IsRoster _ s f h = ground arith

apply-typists : (m : ServerMessage) (s : RoomState) → IsIdSet s.typing → IsIdSet (apply m s).typing
unfolding apply
apply-typists (ServerMessage.participant_left left) s h = remove_from-IsIdSet s.typing left h
apply-typists (ServerMessage.chat_typing id active) s h =
    ground (arith, add_to-IsIdSet s.typing id h, remove_from-IsIdSet s.typing id h)
apply-typists _ s h = ground arith

apply-messages :
    (m : ServerMessage) (s : RoomState)
    → IsFit m
    → length s.messages ≤ max_messages
    → length (apply m s).messages ≤ max_messages
unfolding apply
apply-messages (ServerMessage.ready r) s f h = f.1
apply-messages (ServerMessage.chat_message m) s f h = length-append_message s.messages m h
apply-messages (ServerMessage.chat_pinned m pinned) s f h = omega (
  arith,
  length-map (λ (o : ChatMessage). if has_id m.id o then record o { pinned = pinned } else o)
      s.messages,
)
apply-messages _ s f h = ground arith

apply-reactions :
    (m : ServerMessage) (s : RoomState)
    → length s.reactions ≤ 25
    → length (apply m s).reactions ≤ 25
unfolding apply
apply-reactions (ServerMessage.reaction user emoji at) s h = omega (
  arith,
  length-append (take_last 24 s.reactions) (record { user_id = user; emoji = emoji; at = at } ∷ []),
  length-drop (length s.reactions - 24) s.reactions,
)
apply-reactions _ s h = ground arith

-- Each message keeps the members distinct, the set of those who are typing a set, the history
-- within 300 messages and the reactions within 25, if each snapshot starts so.
pub apply-Inv : (m : ServerMessage) (s : RoomState) → IsFit m → Inv s → Inv (apply m s)
apply-Inv m s f v = record {
  roster = apply-IsRoster m s f v.roster;
  typists = apply-typists m s v.typists;
  messages_capped = apply-messages m s f v.messages_capped;
  reactions_capped = apply-reactions m s v.reactions_capped;
}

initial-Inv : Inv initial
unfolding initial
initial-Inv = ground arith

apply_all-Inv :
    (ms : List ServerMessage) (s : RoomState) → All IsFit ms → Inv s → Inv (apply_all ms s)
unfolding apply_all
apply_all-Inv [] s f v = v
apply_all-Inv (m ∷ ms) s f v = apply_all-Inv ms (apply m s) f.1 (apply-Inv m s f.0 v)

-- After every sequence of messages from the initial state, of which each snapshot has distinct members
-- and at most 300 recent messages: no two of the room's members are the same user, no user is twice
-- among those who are typing, and there are at most 300 chat messages and 25 reactions.
pub apply_all-initial-Inv : (ms : List ServerMessage) → All IsFit ms → Inv (apply_all ms initial)
apply_all-initial-Inv ms f = apply_all-Inv ms initial f initial-Inv
