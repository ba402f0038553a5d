-- ===== src/Panels/Chat/Sending.antt =====
-- What the composer of apps/web/src/components/room/chat.tsx sends, against the protocol's schema.
use youtube_rooms.Prelude.{ℕ, ◌≤◌, ◌≡◌, Bool, true, false, List, [], ◌∷◌, All, length, arith}
use youtube_rooms.Prelude.Text.{Text, is_empty, trim, trim_twice, length-trim, length-is_empty}
use youtube_rooms.Protocol.Schema.{is_client_message, is_chat_body}
use youtube_rooms.Panels.Chat.{
  ChatPanel, to_bottom, on_messages, on_scroll, send, on_key_down, Event, step, run,
}

module _ (is_url : Text → Bool) where
  -- The draft fits a message, and what was sent is taken by the schema.
  pub record Inv (p : ChatPanel) : Type 0 where
    pub short : length p.draft ≤ 2000
    pub taken : All (λ m. is_client_message is_url m ≡ true) p.sent

  trim-is_chat_body :
      (t : Text) → is_empty (trim t) ≡ false → length t ≤ 2000 → is_chat_body (trim t) ≡ true
  unfolding is_chat_body
  trim-is_chat_body t e h = ground (arith, trim_twice t, length-trim t, length-is_empty (trim t) e)

  send-Inv : (connected : Bool) (nonce : ℕ) (p : ChatPanel) → Inv p → Inv (send connected nonce p)
  unfolding send is_client_message
  send-Inv connected nonce p h = ground (arith, trim-is_chat_body p.draft)

  step-Inv : (p : ChatPanel) (e : Event) → Inv p → Inv (step p e)
  unfolding step to_bottom on_messages on_scroll on_key_down
  step-Inv p (Event.submits connected nonce) h = send-Inv connected nonce p h
  step-Inv p (Event.presses key connected nonce) h = ground (arith, send-Inv connected nonce p h)
  step-Inv p e h = ground arith

  -- Whatever is typed, pressed and scrolled, the draft stays within the length of a message, and each
  -- message that the panel sends is one that the protocol's schema takes: it is not blank.
  pub run-taken : (p : ChatPanel) (es : List Event) → Inv p → Inv (run p es)
  unfolding run
  run-taken p [] h = h
  run-taken p (e ∷ es) h = run-taken (step p e) es (step-Inv p e h)
