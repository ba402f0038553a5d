-- ===== src/Protocol/Schema.antt =====
-- The checks of packages/protocol/src/client-messages.ts and of the scalars of primitives.ts: which of
-- the messages of Client its schema takes.
--
-- An id stands for a text of the form of a uuid, and a nonce, a ticket and the texts of a signal for
-- one of the length that the schema asks for: the client does not write them, it passes them on.
use youtube_rooms.Prelude.{ℕ, Bool, true, not, ◌&&◌, ◌||◌, List, [], ◌∷◌, leb, ◌==◌, length}
use youtube_rooms.Prelude.Int.{ltb_ℤ, pos}
use youtube_rooms.Prelude.Text.{Text, trim}
use youtube_rooms.Number.{is_finite, is_negative}
use youtube_rooms.Protocol.Client.{
  SyncAction, set_rate, ClientMessage, sync_intent, sync_report, queue_add, queue_import,
  report_duration, chat_send,
}

-- z.string().min(low).max(high)
abbrev pub is_long : ℕ → ℕ → Text → Bool
is_long low high t = leb low (length t) && leb (length t) high

-- chatBody and displayName
unfoldable pub is_chat_body : Text → Bool
is_chat_body t = is_long 1 2000 (trim t)

unfoldable pub is_display_name : Text → Bool
is_display_name t = is_long 2 32 (trim t)

-- videoId
abbrev pub is_video_char : ℕ → Bool
is_video_char c =
    (leb b'A' c && leb c b'Z')
    || (leb b'a' c && leb c b'z')
    || (leb b'0' c && leb c b'9')
    || c == b'_'
    || c == b'-'

abbrev pub every {ℓ} : {A : Type ℓ} → (A → Bool) → List A → Bool
every check [] = true
every check (a ∷ rest) = check a && every check rest

unfoldable pub is_video_id : Text → Bool
is_video_id t = (length t == 11) && every is_video_char t

-- The actions: playbackRate is a rate of the ladder, `seconds` is not negative as it stands.
abbrev pub is_action : SyncAction → Bool
is_action (set_rate quarters) = leb 1 quarters && leb quarters 8
is_action _ = true

-- clientMessage; `is_url` is z.url's test of an address.
module _ (is_url : Text → Bool) where
  unfoldable pub is_client_message : ClientMessage → Bool
  is_client_message (sync_intent action version) = is_action action
  is_client_message (sync_report drift_ms position buffering) =
      is_finite drift_ms && is_finite position && not (is_negative position)
  is_client_message (queue_add url play_next) = is_long 1 2048 url
  is_client_message (queue_import url) = is_url url && is_long 0 2048 url
  is_client_message (report_duration seconds) = ltb_ℤ (pos 0) seconds
  is_client_message (chat_send body reply_to nonce) = is_chat_body body
  is_client_message _ = true
