-- ===== src/Panels/Queue/Permission.antt =====
-- What apps/web/src/components/room/queue.tsx sends without the permissions.
use youtube_rooms.Prelude.{◌≡◌, refl, ◌∙◌, Bool, true, false, not, List, [], ◌∷◌, All, any, arith}
use youtube_rooms.Protocol.Client.{ClientMessage, sync_intent}
use youtube_rooms.Panels.Queue.{QueuePanel, can_manage, Event, renders, Stage, act, step, run}

-- A viewer without the permission of the queue, and then without the one of the playback.
abbrev pub Denies : Event → Type 0
Denies (renders room) = can_manage room ≡ false
Denies _ = Unit

abbrev pub is_intent : ClientMessage → Bool
is_intent (sync_intent action version) = true
is_intent _ = false

abbrev pub changes_queue : ClientMessage → Bool
changes_queue message = not (is_intent message)

-- Nobody has opened a dialog: a dialog that was opened with the permission stays in the page.
abbrev pub IsShut : QueuePanel → Type 0
IsShut p = (p.add.is_open ≡ false) × (p.playlist.is_open ≡ false)

step-denied :
    (s : Stage) (e : Event)
    → can_manage s.room ≡ false
    → IsShut s.panel
    → Denies e
    → (can_manage (step s e).room ≡ false)
      × IsShut (step s e).panel
      × (any changes_queue (step s e).panel.sent ≡ any changes_queue s.panel.sent)
unfolding step act
step-denied s e d i k = ground arith

-- To a viewer who may not manage the queue, and has no dialog open, the panel gives nothing that
-- changes the queue: whatever is pressed, all that it adds to its messages is to play an item now.
pub run-denied :
    (s : Stage) (es : List Event)
    → can_manage s.room ≡ false
    → IsShut s.panel
    → All Denies es
    → any changes_queue (run s es).panel.sent ≡ any changes_queue s.panel.sent
unfolding run
run-denied s [] d i k = refl
run-denied s (e ∷ es) d i k =
    let (still, shut, same) = step-denied s e d i k.0 in
    run-denied (step s e) es still shut k.1 ∙ same
