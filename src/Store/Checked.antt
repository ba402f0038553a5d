-- ===== src/Store/Checked.antt =====
-- What the state of apps/web/src/stores/room-store.ts holds of messages that the socket let through.
use youtube_rooms.Prelude.{
  ℕ, zero, suc, ◌-◌, ◌≡◌, refl, Bool, true, not, List, [], ◌∷◌, ◌++◌, map, filter, drop, length,
  set, arith,
}
use youtube_rooms.Prelude.Text.{Text}
use youtube_rooms.Protocol.Primitives.{ChatMessage}
use youtube_rooms.Protocol.Rest.{optional}
use youtube_rooms.Protocol.Schema.{every}
use youtube_rooms.Protocol.Checked.{
  is_user_summary, is_participant, is_chat_message, is_room_snapshot, is_queue_item, is_timeline,
  is_ready, is_server_message,
}
use youtube_rooms.Protocol.Server.{ServerMessage}
use youtube_rooms.Store.{
  RoomState, initial, is_user, has_id, append_new, append_message, apply, apply_all,
}
use youtube_rooms.Store.Chat.{append_by-cases}

module _ {ℓ} {A : Type ℓ} (check : A → Bool) where
  every-append :
      (xs ys : List A)
      → every check xs ≡ true
      → every check ys ≡ true
      → every check (xs ++ ys) ≡ true
  every-append [] ys h k = k
  every-append (x ∷ xs) ys h k = ground (arith, every-append xs ys)

  every-filter :
      (p : A → Bool) (xs : List A) → every check xs ≡ true → every check (filter p xs) ≡ true
  every-filter p [] h = refl
  every-filter p (x ∷ xs) h = ground (arith, every-filter p xs)

  every-drop : (n : ℕ) (xs : List A) → every check xs ≡ true → every check (drop n xs) ≡ true
  every-drop zero xs h = h
  every-drop (suc n) [] h = refl
  every-drop (suc n) (x ∷ xs) h = ground (arith, every-drop n xs)

  every-set :
      (xs : List A) (i : ℕ) (a : A)
      → every check xs ≡ true
      → check a ≡ true
      → every check (set xs i a) ≡ true
  every-set [] i a h k = refl
  every-set (x ∷ xs) zero a h k = ground arith
  every-set (x ∷ xs) (suc i) a h k = ground (arith, every-set xs i a)

  every-map :
      (f : A → A) (xs : List A)
      → ((a : A) → check a ≡ true → check (f a) ≡ true)
      → every check xs ≡ true
      → every check (map f xs) ≡ true
  every-map f [] g h = refl
  every-map f (x ∷ xs) g h = ground (arith, g x, every-map f xs g)

append_new-every :
    (ms : List ChatMessage) (m : ChatMessage)
    → every is_chat_message ms ≡ true
    → is_chat_message m ≡ true
    → every is_chat_message (append_new ms m) ≡ true
unfolding append_new
append_new-every ms m h k = ground (
  arith,
  every-append is_chat_message ms (m ∷ []) h,
  every-drop is_chat_message (length (ms ++ m ∷ []) - 300) (ms ++ m ∷ []),
)

append_message-every :
    (ms : List ChatMessage) (m : ChatMessage)
    → every is_chat_message ms ≡ true
    → is_chat_message m ≡ true
    → every is_chat_message (append_message ms m) ≡ true
unfolding append_message
append_message-every ms m h k =
    append_by-cases (λ ns. every is_chat_message ns ≡ true) m.nonce ms m (append_new-every ms m h k)
      (λ n i e z f. every-set is_chat_message ms i m h k)

module _ (is_url : Text → Bool) where
  -- Each value of the state is one that the schema of its record takes.
  pub record IsChecked (s : RoomState) : Type 0 where
    pub self : optional is_user_summary s.self ≡ true
    pub room : optional is_room_snapshot s.room ≡ true
    pub timeline : optional (is_timeline is_url) s.timeline ≡ true
    pub participants : every is_participant s.participants ≡ true
    pub queue : every (is_queue_item is_url) s.queue ≡ true
    pub messages : every is_chat_message s.messages ≡ true
    pub pinned : every is_chat_message s.pinned ≡ true

  apply-singles :
      (m : ServerMessage) (s : RoomState)
      → is_server_message is_url m ≡ true
      → IsChecked s
      → (optional is_user_summary (apply m s).self ≡ true)
        × (optional is_room_snapshot (apply m s).room ≡ true)
        × (optional (is_timeline is_url) (apply m s).timeline ≡ true)
        × (every (is_queue_item is_url) (apply m s).queue ≡ true)
  unfolding apply is_server_message is_ready
  apply-singles (ServerMessage.ready r) s c h = ground (arith, c)
  apply-singles (ServerMessage.timeline tl actor reason) s c h =
      ground (arith, c, h.self, h.room, h.timeline, h.queue)
  apply-singles (ServerMessage.queue_updated items version) s c h =
      ground (arith, c, h.self, h.room, h.timeline, h.queue)
  apply-singles (ServerMessage.room_updated room) s c h = (h.self, c, h.timeline, h.queue)
  apply-singles _ s c h = ground (arith, h.self, h.room, h.timeline, h.queue)

  apply-participants :
      (m : ServerMessage) (s : RoomState)
      → is_server_message is_url m ≡ true
      → every is_participant s.participants ≡ true
      → every is_participant (apply m s).participants ≡ true
  unfolding apply is_server_message is_ready
  apply-participants (ServerMessage.ready r) s c h = ground (arith, c)
  apply-participants (ServerMessage.participant_joined p) s c h =
      ground (arith, every-append is_participant s.participants (p ∷ []) h)
  apply-participants (ServerMessage.participant_left id) s c h =
      every-filter is_participant (λ p. not (is_user id p)) s.participants h
  apply-participants (ServerMessage.participant_updated q) s c h =
      every-map is_participant _ s.participants (λ p k. ground (arith, c, k)) h
  apply-participants (ServerMessage.voice_state id muted in_voice) s c h =
      every-map is_participant _ s.participants (λ p k. ground (arith, k)) h
  apply-participants (ServerMessage.voice_peer_left id) s c h =
      every-map is_participant _ s.participants (λ p k. ground (arith, k)) h
  apply-participants _ s c h = ground (arith, h)

  apply-messages :
      (m : ServerMessage) (s : RoomState)
      → is_server_message is_url m ≡ true
      → every is_chat_message s.messages ≡ true
      → every is_chat_message s.pinned ≡ true
      → (every is_chat_message (apply m s).messages ≡ true)
        × (every is_chat_message (apply m s).pinned ≡ true)
  unfolding apply is_server_message is_ready
  apply-messages (ServerMessage.ready r) s c h k = ground (arith, c)
  apply-messages (ServerMessage.chat_message m) s c h k = (append_message-every s.messages m h c, k)
  apply-messages (ServerMessage.chat_pinned m pinned) s c h k = (
    every-map is_chat_message _ s.messages (λ o e. ground (arith, e)) h,
    ground (
      arith,
      c,
      every-filter is_chat_message (λ (o : ChatMessage). not (has_id m.id o)) s.pinned k,
    ),
  )
  apply-messages _ s c h k = ground (arith, h, k)

  apply-IsChecked :
      (m : ServerMessage) (s : RoomState)
      → is_server_message is_url m ≡ true
      → IsChecked s
      → IsChecked (apply m s)
  apply-IsChecked m s c h =
      let (self, room, timeline, queue) = apply-singles m s c h in
      let (messages, pinned) = apply-messages m s c h.messages h.pinned in
      record {
        self = self;
        room = room;
        timeline = timeline;
        participants = apply-participants m s c h.participants;
        queue = queue;
        messages = messages;
        pinned = pinned;
      }

  run-IsChecked :
      (ms : List ServerMessage) (s : RoomState)
      → every (is_server_message is_url) ms ≡ true
      → IsChecked s
      → IsChecked (apply_all ms s)
  unfolding apply_all
  run-IsChecked [] s c h = h
  run-IsChecked (m ∷ ms) s c h =
      run-IsChecked ms (apply m s) (ground (arith, c)) (apply-IsChecked m s (ground (arith, c)) h)

  initial-IsChecked : IsChecked initial
  unfolding initial
  initial-IsChecked = ground arith

  -- After any messages that the schema takes, the state holds only what the schemas of its records take:
  -- its user, room and timeline, the members, the queue, the history and the pinned messages.
  pub apply_all-IsChecked :
      (ms : List ServerMessage)
      → every (is_server_message is_url) ms ≡ true
      → IsChecked (apply_all ms initial)
  apply_all-IsChecked ms c = run-IsChecked ms initial c initial-IsChecked
