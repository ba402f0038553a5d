-- ===== src/Store/Chat.antt =====
-- The chat history of apps/web/src/stores/room-store.ts (appendMessage).
use youtube_rooms.Prelude.{
  ℕ, zero, suc, ◌-◌, ◌≤◌, ◌≡◌, refl, Bool, true, false, Option, none, some, List, [], ◌∷◌, ◌++◌,
  ◌==◌, length, any, set, find_index, drop, Bool-cases, Option-cases, inl, inr, arith,
  length-append, length-drop, length-set,
}
use youtube_rooms.Protocol.Primitives.{ChatMessage}
use youtube_rooms.Store.{has_id, has_nonce, max_messages, append_message, append_by, append_new}

length-append_new :
    (ms : List ChatMessage) (m : ChatMessage)
    → length ms ≤ max_messages
    → length (append_new ms m) ≤ max_messages
unfolding append_new
length-append_new ms m h =
    ground
      (arith, length-append ms (m ∷ []), length-drop (length (ms ++ m ∷ []) - 300) (ms ++ m ∷ []))

-- What is to be shown of a history after a message, for each way in which it arrives.
pub append_by-cases {ℓ} :
    (P : List ChatMessage → Type ℓ) (nonce : Option ℕ) (ms : List ChatMessage) (m : ChatMessage)
    → P (append_new ms m)
    → ((n i : ℕ)
        → nonce ≡ some n
        → (n == 0) ≡ false
        → find_index (has_nonce n) ms ≡ some i
        → P (set ms i m))
    → P (append_by nonce ms m)
unfolding append_by
append_by-cases P none ms m new old = new
append_by-cases P (some n) ms m new old = elim (Bool-cases (n == 0)) [
  | inl e ↦ rw e new
  | inr e ↦ rw e (elim (Option-cases (find_index (has_nonce n) ms)) [
    | inl none_found ↦ rw none_found new
    | inr (i, found) ↦ rw found (old n i refl e found)
  ])
]

pub length-append_message :
    (ms : List ChatMessage) (m : ChatMessage)
    → length ms ≤ max_messages
    → length (append_message ms m) ≤ max_messages
unfolding append_message
length-append_message ms m h =
    append_by-cases (λ ns. length ns ≤ max_messages) m.nonce ms m (length-append_new ms m h)
      (λ n i e z f. omega (arith, length-set ms i m))

any-set :
    (p : ChatMessage → Bool) (q : ChatMessage → Bool) (ms : List ChatMessage) (m : ChatMessage)
    (i : ℕ)
    → find_index q ms ≡ some i
    → p m ≡ true
    → any p (set ms i m) ≡ true
any-set p q [] m i f h = cc
any-set p q (x ∷ ms) m zero f h = rw h
any-set p q (x ∷ ms) m (suc i) f h = ground (arith, any-set p q ms m i)

any-last :
    (p : ChatMessage → Bool) (ms : List ChatMessage) (m : ChatMessage)
    → p m ≡ true
    → any p (ms ++ m ∷ []) ≡ true
any-last p [] m h = rw h
any-last p (x ∷ ms) m h = ground (arith, any-last p ms m h)

any-drop_last :
    (p : ChatMessage → Bool) (n : ℕ) (ms : List ChatMessage) (m : ChatMessage)
    → n ≤ length ms
    → p m ≡ true
    → any p (drop n (ms ++ m ∷ [])) ≡ true
any-drop_last p zero ms m l h = any-last p ms m h
any-drop_last p (suc n) [] m l h = absurd (omega arith)
any-drop_last p (suc n) (x ∷ ms) m l h = any-drop_last p n ms m (omega arith) h

has_id_self : (m : ChatMessage) → has_id m.id m ≡ true
has_id_self m = ground arith

pub any-append_new :
    (ms : List ChatMessage) (m : ChatMessage) → any (has_id m.id) (append_new ms m) ≡ true
unfolding append_new
any-append_new ms m = ground (
  arith,
  any-last (has_id m.id) ms m (has_id_self m),
  any-drop_last (has_id m.id) (length (ms ++ m ∷ []) - 300) ms m,
  length-append ms (m ∷ []),
)

-- A message that arrives is in the history afterwards, also where it evicts the oldest.
pub any-append_message :
    (ms : List ChatMessage) (m : ChatMessage) → any (has_id m.id) (append_message ms m) ≡ true
unfolding append_message
any-append_message ms m =
    append_by-cases (λ ns. any (has_id m.id) ns ≡ true) m.nonce ms m (any-append_new ms m)
      (λ n i e z f. any-set (has_id m.id) (has_nonce n) ms m i f (has_id_self m))
