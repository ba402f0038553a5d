-- ===== src/Panels/Participants/Ranked.antt =====
-- The order of apps/web/src/components/room/participants.tsx.
use youtube_rooms.Prelude.{◌≡◌, Bool, true, false, List, length, filter, arith}
use youtube_rooms.Prelude.Sort.{IsSorted, sort-IsSorted, count-sort}
use youtube_rooms.Protocol.Primitives.{Participant}
use youtube_rooms.Panels.Participants.{goes_before, ranked}

goes_before_total : (x y : Participant) → goes_before x y ≡ false → goes_before y x ≡ true
unfolding goes_before
goes_before_total x y h = ground arith

goes_before_trans :
    (x y z : Participant) → goes_before x y ≡ true → goes_before y z ≡ true → goes_before x z ≡ true
unfolding goes_before
goes_before_trans x y z h k = ground arith

-- The list of the panel holds the members of the room, each as often as the store does, and each of
-- them comes before those behind it: of a higher rank, or of the same one and there no later.
pub ranked-IsSorted :
    (participants : List Participant)
    → IsSorted goes_before (ranked participants)
      × ((p : Participant → Bool)
          → length (filter p (ranked participants)) ≡ length (filter p participants))
unfolding ranked
ranked-IsSorted participants = (
  sort-IsSorted goes_before goes_before_total goes_before_trans participants,
  λ p. count-sort goes_before p participants,
)
