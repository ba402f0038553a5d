-- ===== src/Panels/Participants.antt =====
-- apps/web/src/components/room/participants.tsx: the order of the list and the menu of a row.
pub mod Ranked
pub mod Menu
use youtube_rooms.Prelude.{
  ℕ, ◌++◌, Bool, true, false, not, ◌||◌, ◌&&◌, Option, none, some, List, [], ◌∷◌, ◌==◌, ltb, map,
  if◌then◌else◌,
}
use youtube_rooms.Prelude.Int.{leb_ℤ}
use youtube_rooms.Prelude.Sort.{sort}
use youtube_rooms.Protocol.Primitives.{
  RoomRole, host, cohost, Permissions, UserSummary, Participant,
}
use youtube_rooms.Protocol.Client.{
  ClientMessage, set_role, cohost, member, designate_successor, transfer_host, kick_participant,
}
use youtube_rooms.Protocol.Server.{RoomSnapshot}

-- rank
unfoldable pub rank : RoomRole → ℕ
rank RoomRole.host = 0
rank RoomRole.cohost = 1
rank _ = 2

-- The comparison of the sort: not positive where `a` may stand before `b`.
unfoldable pub goes_before : Participant → Participant → Bool
goes_before a b =
    if rank a.role == rank b.role
    then leb_ℤ a.joined_at b.joined_at
    else ltb (rank a.role) (rank b.role)

unfoldable pub ranked : List Participant → List Participant
ranked participants = sort goes_before participants

-- The props of ParticipantRow.
pub record Row : Type 0 where
  pub participant : Participant
  pub is_self : Bool
  pub is_successor : Bool
  pub can_manage_roles : Bool
  pub can_kick : Bool
  pub can_transfer_host : Bool
  pub can_designate : Bool

-- What the panel takes from the store.
pub record Members : Type 0 where
  pub participants : List Participant
  pub permissions : Option Permissions
  pub self : Option UserSummary
  pub room : Option RoomSnapshot

abbrev pub is_user : ℕ → Option UserSummary → Bool
is_user id none = false
is_user id (some user) = id == user.id

abbrev pub successor_of : Option RoomSnapshot → Option ℕ
successor_of none = none
successor_of (some room) = room.successor_id

abbrev pub is_id : ℕ → Option ℕ → Bool
is_id id none = false
is_id id (some other) = other == id

abbrev pub allows : (Permissions → Bool) → Option Permissions → Bool
allows p none = false
allows p (some permissions) = p permissions

unfoldable pub row : Members → Participant → Row
row m participant = record {
  participant = participant;
  is_self = is_user participant.user.id m.self;
  is_successor = is_id participant.user.id (successor_of m.room);
  can_manage_roles = allows (λ p. p.can_manage_roles) m.permissions;
  can_kick = allows (λ p. p.can_kick) m.permissions;
  can_transfer_host = allows (λ p. p.can_transfer_host) m.permissions;
  can_designate = allows (λ p. p.can_designate_successor) m.permissions;
}

-- ParticipantsPanel
unfoldable pub rows : Members → List Row
rows m = map (row m) (ranked m.participants)

abbrev pub is_host : RoomRole → Bool
is_host RoomRole.host = true
is_host _ = false

abbrev pub is_cohost : RoomRole → Bool
is_cohost RoomRole.cohost = true
is_cohost _ = false

unfoldable pub actionable : Row → Bool
actionable r = not (is_host r.participant.role) && not r.is_self

unfoldable pub show_menu : Row → Bool
show_menu r =
    actionable r && (r.can_manage_roles || r.can_kick || r.can_transfer_host || r.can_designate)

abbrev pub item_if : Bool → ClientMessage → List ClientMessage → List ClientMessage
item_if true message rest = message ∷ rest
item_if false message rest = rest

-- The menu of a row: the message of each item, from the top.
unfoldable pub menu : Row → List ClientMessage
menu r =
    let id = r.participant.user.id in
    if not (show_menu r)
    then []
    else item_if r.can_manage_roles
        (set_role id (if is_cohost r.participant.role then member else cohost))
        (item_if r.can_designate (designate_successor (if r.is_successor then none else some id)) (
          item_if r.can_transfer_host (transfer_host id)
            (item_if r.can_kick (kick_participant id) [])))
