-- ===== src/Store/Duplicates.antt =====
-- A chat message that is delivered twice (appendMessage of apps/web/src/stores/room-store.ts).
use youtube_rooms.Prelude.{
  ℕ, zero, suc, ◌-◌, ◌≤◌, ◌≡◌, refl, ap, Bool, true, Option, none, some, List, [], ◌∷◌, ◌++◌, ltb,
  ◌==◌, length, any, set, find_index, drop, Bool-cases, inl, inr, arith, length-append,
}
use youtube_rooms.Protocol.Primitives.{ChatMessage}
use youtube_rooms.Store.{
  has_id, has_nonce, max_messages, append_message, append_by, append_new, put,
}
use youtube_rooms.Store.Chat.{any-append_new}

append_new_known :
    (ms : List ChatMessage) (m : ChatMessage) → any (has_id m.id) ms ≡ true → append_new ms m ≡ ms
unfolding append_new
append_new_known ms m h = rw h

module _ (q : ChatMessage → Bool) (m : ChatMessage) (matches : q m ≡ true) where
  -- The history holds `m` where a message of its nonce is looked for.
  Holds : List ChatMessage → Type 0
  Holds ms = put (find_index q ms) ms m ≡ ms

  find_index-set :
      (ms : List ChatMessage) (i : ℕ)
      → find_index q ms ≡ some i
      → find_index q (set ms i m) ≡ some i
  find_index-set [] i h = cc
  find_index-set (x ∷ ms) zero h = rw matches
  find_index-set (x ∷ ms) (suc i) h = ground (arith, find_index-set ms i)

  set-set : (ms : List ChatMessage) (i : ℕ) → set (set ms i m) i m ≡ set ms i m
  set-set [] i = refl
  set-set (x ∷ ms) zero = refl
  set-set (x ∷ ms) (suc i) = ap (◌∷◌ x) (set-set ms i)

  set-Holds : (ms : List ChatMessage) (i : ℕ) → find_index q ms ≡ some i → Holds (set ms i m)
  unfolding Holds put
  set-Holds ms i h = rw (find_index-set ms i h, set-set ms i)

  find_index-last :
      (ms : List ChatMessage)
      → find_index q ms ≡ none
      → find_index q (ms ++ m ∷ []) ≡ some (length ms)
  find_index-last [] h = rw matches
  find_index-last (x ∷ ms) h = ground (arith, find_index-last ms)

  set-last : (ms : List ChatMessage) → set (ms ++ m ∷ []) (length ms) m ≡ ms ++ m ∷ []
  set-last [] = refl
  set-last (x ∷ ms) = ap (◌∷◌ x) (set-last ms)

  last-Holds : (ms : List ChatMessage) → find_index q ms ≡ none → Holds (ms ++ m ∷ [])
  unfolding Holds put
  last-Holds ms h = rw (find_index-last ms h, set-last ms)

  drop_last :
      (n : ℕ) (ms : List ChatMessage)
      → n ≤ length ms
      → find_index q ms ≡ none
      → Holds (drop n (ms ++ m ∷ []))
  drop_last zero ms l h = last-Holds ms h
  drop_last (suc n) [] l h = absurd (omega arith)
  drop_last (suc n) (x ∷ ms) l h = drop_last n ms (omega arith) (ground arith)

  known-Holds :
      (ms : List ChatMessage) → find_index q ms ≡ none → any (has_id m.id) ms ≡ true → Holds ms
  unfolding Holds put
  known-Holds ms h k = rw h (append_new_known ms m k)

  append_new-Holds : (ms : List ChatMessage) → find_index q ms ≡ none → Holds (append_new ms m)
  unfolding append_new
  append_new-Holds ms h = elim (Bool-cases (any (has_id m.id) ms)) [
    | inl known ↦ rw known (known-Holds ms h known)
    | inr new ↦ rw new (elim (Bool-cases (ltb max_messages (length (ms ++ m ∷ [])))) [
      | inl full ↦
          rw full (
            drop_last (length (ms ++ m ∷ []) - 300) ms (omega (arith, length-append ms (m ∷ []))) h)
      | inr fits ↦ rw fits (last-Holds ms h)
    ])
  ]

  put_twice :
      (ms : List ChatMessage) (found : Option ℕ) → find_index q ms ≡ found → Holds (put found ms m)
  unfolding put
  put_twice ms none h = append_new-Holds ms h
  put_twice ms (some i) h = set-Holds ms i h

has_nonce_self : (n : ℕ) (m : ChatMessage) → m.nonce ≡ some n → has_nonce n m ≡ true
has_nonce_self n m e = ground arith

append_by_twice :
    (nonce : Option ℕ) (ms : List ChatMessage) (m : ChatMessage)
    → m.nonce ≡ nonce
    → append_by nonce (append_by nonce ms m) m ≡ append_by nonce ms m
unfolding append_by Holds
append_by_twice none ms m e = append_new_known (append_new ms m) m (any-append_new ms m)
append_by_twice (some n) ms m e = elim (Bool-cases (n == 0)) [
  | inl z ↦ rw z (append_new_known (append_new ms m) m (any-append_new ms m))
  | inr z ↦ rw z (put_twice (has_nonce n) m (has_nonce_self n m e) ms _ refl)
]

pub append_message_twice :
    (ms : List ChatMessage) (m : ChatMessage)
    → append_message (append_message ms m) m ≡ append_message ms m
unfolding append_message
append_message_twice ms m = append_by_twice m.nonce ms m refl
