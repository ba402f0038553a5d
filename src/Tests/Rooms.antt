-- ===== src/Tests/Rooms.antt =====
-- The reducer of the room's state.
use youtube_rooms.Prelude.{ℕ, ◌≡◌, refl, true, none, some, List, [], ◌∷◌, All, length, arith}
use youtube_rooms.Prelude.Int.{pos}
use youtube_rooms.Protocol.Primitives.{host}
use youtube_rooms.Protocol.Server.{ServerMessage, intent}
use youtube_rooms.Timeline.{Timeline}
use youtube_rooms.Store.{
  RoomState, initial, apply, apply_all, append_message, append_by, append_new, put, remove_from,
  add_to,
}
use youtube_rooms.Store.Members.{present, present_after, present-apply}
use youtube_rooms.Store.Invariant.{Inv, apply_all-initial-Inv}
use youtube_rooms.Store.Versions.{IsReflected, apply_all-IsReflected, queue_updated-ready}
use youtube_rooms.Store.Sessions.{authority, apply_all-authority}
use youtube_rooms.Tests.Fixtures.{playing, participant, chat, everything, snapshot}

abbrev joined : RoomState
joined = apply (ServerMessage.ready snapshot) initial

-- A third user comes, types, says something that a second node repeats, and the second one leaves.
abbrev evening : List ServerMessage
evening =
    ServerMessage.participant_joined (participant 3)
    ∷ ServerMessage.chat_typing 3 true
    ∷ ServerMessage.chat_message (chat 42 3 none)
    ∷ ServerMessage.chat_message (chat 42 3 none)
    ∷ ServerMessage.participant_left 2
    ∷ ServerMessage.timeline (record playing { version = 4 }) none intent
    ∷ ServerMessage.timeline (record playing { version = 3 }) none intent
    ∷ ServerMessage.permissions_updated 3 host everything
    ∷ []

after_the_evening :
    let s = apply_all evening joined in
    (length s.participants ≡ 2)
    × (length s.messages ≡ 2)
    × (s.typing ≡ 3 ∷ [])
    × (s.timeline ≡ some (record playing { version = 4 }))
unfolding apply_all apply append_message append_by append_new add_to remove_from initial
after_the_evening = (refl, refl, refl, refl)

optimistic_bubble :
    append_message (chat 1 1 (some 9) ∷ chat 2 2 none ∷ []) (chat 3 1 (some 9))
    ≡ chat 3 1 (some 9) ∷ chat 2 2 none ∷ []
unfolding append_message append_by put
optimistic_bubble = refl

present-apply_example :
    present 2 (apply (ServerMessage.participant_left 2) joined).participants
    ≡ present_after (ServerMessage.participant_left 2) 2 (present 2 joined.participants)
present-apply_example = present-apply (ServerMessage.participant_left 2) joined 2

apply_all-initial-Inv_example : Inv (apply_all (ServerMessage.ready snapshot ∷ evening) initial)
apply_all-initial-Inv_example =
    apply_all-initial-Inv (ServerMessage.ready snapshot ∷ evening) (ground arith)

apply_all-IsReflected_example : All (IsReflected (apply_all evening joined).timeline) evening
apply_all-IsReflected_example = apply_all-IsReflected evening joined (ground arith)

abbrev at_version : ℕ → Timeline
at_version v = record playing { version = v }

-- The server has started again, and numbers its queues from 1.
queue_updated-ready_example :
    (apply
      (ServerMessage.queue_updated [] (pos 1))
      (apply (ServerMessage.ready snapshot) (record initial { queue_version = pos 12 }))).queue
    ≡ []
queue_updated-ready_example =
    queue_updated-ready snapshot [] (pos 1) (record initial { queue_version = pos 12 })
      (omega arith)

apply_all-authority_example : authority (apply_all evening joined) ≡ authority joined
unfolding apply initial
apply_all-authority_example = apply_all-authority evening joined (ground arith)
