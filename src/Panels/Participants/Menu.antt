-- ===== src/Panels/Participants/Menu.antt =====
-- The items of apps/web/src/components/room/participants.tsx, against the permissions.
use youtube_rooms.Prelude.{
  ◌≡◌, Bool, true, false, not, ◌&&◌, none, some, All, ◌==◌, if◌then◌else◌, arith,
}
use youtube_rooms.Protocol.Primitives.{Participant}
use youtube_rooms.Protocol.Client.{
  GrantedRole, ClientMessage, set_role, designate_successor, transfer_host, kick_participant,
}
use youtube_rooms.Panels.Participants.{
  Members, is_user, is_id, successor_of, allows, row, is_host, is_cohost, actionable, show_menu,
  menu,
}

abbrev pub is_promotion : GrantedRole → Bool
is_promotion GrantedRole.cohost = true
is_promotion GrantedRole.member = false

-- The member that a message is about, and the permission that it asks for.
abbrev pub is_permitted : Members → Participant → ClientMessage → Bool
is_permitted m p (set_role id role) =
    id == p.user.id
    && allows (λ k. k.can_manage_roles) m.permissions
    && (if is_promotion role then not (is_cohost p.role) else is_cohost p.role)
is_permitted m p (designate_successor none) =
    allows (λ k. k.can_designate_successor) m.permissions && is_id p.user.id (successor_of m.room)
is_permitted m p (designate_successor (some id)) =
    id == p.user.id
    && allows (λ k. k.can_designate_successor) m.permissions
    && not (is_id p.user.id (successor_of m.room))
is_permitted m p (transfer_host id) =
    id == p.user.id && allows (λ k. k.can_transfer_host) m.permissions
is_permitted m p (kick_participant id) = id == p.user.id && allows (λ k. k.can_kick) m.permissions
is_permitted m p _ = false

-- Each item of a member's menu is about that member, who is neither the host nor the viewer, and asks
-- for what the viewer is permitted: a promotion of one who is no co-host, a demotion of one who is,
-- the designation of a successor or, of the present one, its end, the transfer of the room, a removal.
pub menu-permitted :
    (m : Members) (p : Participant)
    → All
        (λ message.
          (not (is_host p.role) && not (is_user p.user.id m.self) && is_permitted m p message)
          ≡ true)
        (menu (row m p))
unfolding menu row show_menu actionable
menu-permitted m p = ground arith
