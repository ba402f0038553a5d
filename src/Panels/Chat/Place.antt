-- ===== src/Panels/Chat/Place.antt =====
-- The place of a reader in the list of apps/web/src/components/room/chat.tsx.
use youtube_rooms.Prelude.{◌≡◌, ◌∙◌, Bool, true, false, not, ◌||◌, List, [], ◌∷◌, any, All, arith}
use youtube_rooms.Prelude.Int.{pos, ltb_ℤ}
use youtube_rooms.Panels.Chat.{
  ChatPanel, on_messages, on_scroll, on_key_down, enter, Event, step, run,
}

-- What a reader of older messages does: he does not come near the end, send, or jump down.
abbrev pub reads_on : Event → Bool
reads_on (Event.scrolls distance) = not (ltb_ℤ distance (pos 48))
reads_on (Event.presses (enter shift) connected nonce) = shift
reads_on (Event.submits connected nonce) = false
reads_on Event.jumps_down = false
reads_on _ = true

abbrev pub ReadsOn : Event → Type 0
ReadsOn e = reads_on e ≡ true

abbrev pub is_arrival : Event → Bool
is_arrival Event.arrives = true
is_arrival _ = false

step-place :
    (p : ChatPanel) (e : Event)
    → p.pinned_to_bottom ≡ false
    → ReadsOn e
    → ((step p e).pinned_to_bottom ≡ false)
      × ((step p e).settled ≡ p.settled)
      × ((step p e).behind ≡ (p.behind || is_arrival e))
unfolding step on_messages on_scroll on_key_down
step-place p e b r = ground arith

-- A reader who is away from the end of the list, and neither comes near it, nor sends, nor jumps
-- down, is never moved, however many messages arrive; and the button that says that there are new
-- ones is shown exactly where it was or one has arrived.
pub run-place :
    (p : ChatPanel) (es : List Event)
    → p.pinned_to_bottom ≡ false
    → All ReadsOn es
    → ((run p es).pinned_to_bottom ≡ false)
      × ((run p es).settled ≡ p.settled)
      × ((run p es).behind ≡ (p.behind || any is_arrival es))
unfolding run
run-place p [] b r = ground arith
run-place p (e ∷ es) b r =
    let (far, still, button) = step-place p e b r.0 in
    let (away, same, shown) = run-place (step p e) es far r.1 in (away, same ∙ still, ground arith)
