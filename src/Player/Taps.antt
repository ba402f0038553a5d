-- ===== src/Player/Taps.antt =====
-- What a tap on the picture of apps/web/src/components/room/player.tsx does.
--
-- A browser tells of a tap by the release of the pointer and then by a click, whose detail counts the
-- clicks: it is 0 only for a click that no pointer made.
use youtube_rooms.Prelude.{
  ℕ, suc, ◌≡◌, ◌∙◌, ap, true, some, List, [], ◌∷◌, arith, if◌then◌else◌, is_some,
}
use youtube_rooms.Protocol.Client.{ClientMessage, play, pause, sync_intent}
use youtube_rooms.Timeline.{Timeline}
use youtube_rooms.Player.View.{Room, Player, source_of, can_control, wake, visible}
use youtube_rooms.Player.Controls.{
  send, toggle, picture_tap, picture_click, enabled, act, press, Event, presses, Stage, step, run,
}

abbrev pub tap : ℕ → List Event
tap clicks = presses picture_tap ∷ presses (picture_click (suc clicks)) ∷ []

-- What toggles a timeline.
abbrev pub toggling : Timeline → ClientMessage
toggling tl = sync_intent (if tl.paused then play else pause) tl.version

press_tap :
    (room : Room) (p : Player) (tl : Timeline) (k : ℕ)
    → room.timeline ≡ some tl
    → room.socket ≡ some k
    → can_control room ≡ true
    → is_some (source_of room) ≡ true
    → (press picture_tap room p).sent ≡ (if visible room p then toggling tl ∷ p.sent else p.sent)
unfolding press enabled act toggle send wake visible
press_tap room p tl k t s c o = ground (arith, t, s, c, o)

press_click :
    (room : Room) (p : Player) (tl : Timeline) (k clicks : ℕ)
    → room.timeline ≡ some tl
    → room.socket ≡ some k
    → can_control room ≡ true
    → is_some (source_of room) ≡ true
    → (press (picture_click (suc clicks)) room p).sent ≡ toggling tl ∷ p.sent
unfolding press enabled act toggle send
press_click room p tl k clicks t s c o = ground (arith, t, s, c, o)

-- Of a viewer who may control playback, with a socket and a source: a tap on the picture, with the click behind it,
-- asks the room to play or to pause once where the bar was hidden, which the tap should only have shown,
-- and twice where it was shown.
pub run-tap :
    (s : Stage) (tl : Timeline) (k clicks : ℕ)
    → s.room.timeline ≡ some tl
    → s.room.socket ≡ some k
    → can_control s.room ≡ true
    → is_some (source_of s.room) ≡ true
    → (run s (tap clicks)).player.sent ≡ (
        if visible s.room s.player
        then toggling tl ∷ toggling tl ∷ s.player.sent
        else toggling tl ∷ s.player.sent)
unfolding run step
run-tap s tl k clicks t e c o =
    press_click s.room (press picture_tap s.room s.player) tl k clicks t e c o
    ∙ ap (λ (sent : List ClientMessage). toggling tl ∷ sent)
        (press_tap s.room s.player tl k t e c o)
    ∙ ground arith
