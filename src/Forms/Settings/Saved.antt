-- ===== src/Forms/Settings/Saved.antt =====
-- Saving the details in apps/web/src/components/room/settings.tsx: what the server keeps of them, and
-- what comes back.
use youtube_rooms.Prelude.{
  ℕ, ◌≡◌, refl, Bool, true, false, Option, none, some, ◌&&◌, ◌||◌, arith, leb, if◌then◌else◌, ap,
  [], ◌∙◌,
}
use youtube_rooms.Prelude.Int.{ℤ}
use youtube_rooms.Prelude.Text.{Text, trim, is_empty}
use youtube_rooms.Protocol.Rest.{is_max_participants}
use youtube_rooms.Forms.Update.{
  Stored, updated, patched, update_room, bad_name, bad_password, bad_topic, is_i32, new_hash,
  in_range, new_topic,
}
use youtube_rooms.Forms.Settings.{
  SettingsPanel, details_body, change_room, seed_from, or_blank, on_saved, typed_topic,
  typed_password,
}

is_max_participants-is_i32 : (n : ℤ) → is_max_participants n ≡ true → is_i32 (some n) ≡ true
is_max_participants-is_i32 n h = ground arith

in_range_lem : (old n : ℤ) → is_max_participants n ≡ true → in_range old (some n) ≡ n
in_range_lem old n h = ground arith

-- A topic that is blank is removed, any other one kept.
abbrev pub kept_topic : Text → Option Text
kept_topic t = if is_empty t then none else some t

or_blank-kept_topic : (t : Text) → or_blank (kept_topic t) ≡ t
or_blank-kept_topic t = ground arith

module _ {ℓ} {H : Type ℓ} (str_trim : Text → Text) (chars bytes : Text → ℕ) (hash : Text → H) where
  -- What can be saved: the name, the topic and the password, if one is given, are as long as the server
  -- and its database want, the number of members is one that the schema takes, and Rust's trim leaves
  -- the trimmed texts alone.
  pub record IsSavable (p : SettingsPanel) : Type 0 where
    pub named : leb 2 (chars (trim p.name)) && leb (chars (trim p.name)) 60 ≡ true
    pub short_topic : leb (chars (trim p.topic)) 200 ≡ true
    pub sized : is_max_participants p.max_participants ≡ true
    pub secret :
        (p.clear_password || is_empty (trim p.password) || leb 4 (bytes (trim p.password))) ≡ true
    pub name_trims : str_trim (trim p.name) ≡ trim p.name
    pub topic_trims : str_trim (trim p.topic) ≡ trim p.topic
    pub password_trims : str_trim (trim p.password) ≡ trim p.password

  -- The row that is meant by the form.
  abbrev pub meant : SettingsPanel → Stored H → Stored H
  meant p room = record {
    details = record room.details {
      name = trim p.name;
      topic = kept_topic (trim p.topic);
      visibility = p.visibility;
      category = p.category;
      max_participants = p.max_participants;
    };
    password_hash =
        if p.clear_password
        then none
        else if is_empty (trim p.password)
        then room.password_hash
        else some (hash (trim p.password));
  }

  new_topic_lem :
      (old : Option Text) (t : Text)
      → str_trim t ≡ t
      → new_topic str_trim chars bytes hash old (typed_topic t) ≡ kept_topic t
  new_topic_lem old t h = ground (arith, h)

  new_hash_lem :
      (old : Option H) (clear : Bool) (t : Text)
      → str_trim t ≡ t
      → new_hash str_trim chars bytes hash old (typed_password clear t)
        ≡ (if clear then none else if is_empty t then old else some (hash t))
  new_hash_lem old true t h = refl
  new_hash_lem old false t h = ground (arith, h)

  patched-details_body :
      (p : SettingsPanel) (room : Stored H)
      → IsSavable p
      → patched str_trim chars bytes hash (details_body p) room ≡ meant p room
  unfolding patched details_body
  patched-details_body p room h =
      rw
        (
          h.name_trims,
          new_topic_lem room.details.topic (trim p.topic) h.topic_trims,
          new_hash_lem room.password_hash p.clear_password (trim p.password) h.password_trims,
          in_range_lem room.details.max_participants p.max_participants h.sized,
        )
        refl

  bad_name-trim :
      (t : Text)
      → str_trim (trim t) ≡ trim t
      → (leb 2 (chars (trim t)) && leb (chars (trim t)) 60) ≡ true
      → bad_name str_trim chars bytes hash (some (trim t)) ≡ false
  bad_name-trim t e h = rw e (ground arith)

  bad_password-typed_password :
      (clear : Bool) (t : Text)
      → str_trim t ≡ t
      → (clear || is_empty t || leb 4 (bytes t)) ≡ true
      → bad_password str_trim chars bytes hash (typed_password clear t) ≡ false
  bad_password-typed_password true t e h = refl
  bad_password-typed_password false t e h = ground (arith, e)

  bad_topic-typed_topic :
      (t : Text)
      → str_trim t ≡ t
      → leb (chars t) 200 ≡ true
      → bad_topic str_trim chars bytes hash (typed_topic t) ≡ false
  bad_topic-typed_topic t e h = ground (arith, e)

  update_room-details_body :
      (p : SettingsPanel) (room : Stored H)
      → IsSavable p
      → update_room str_trim chars bytes hash true (details_body p) room ≡ updated (meant p room)
  unfolding update_room details_body
  update_room-details_body p room h =
      rw
        (
          is_max_participants-is_i32 p.max_participants h.sized,
          bad_name-trim p.name h.name_trims h.named,
          bad_password-typed_password p.clear_password (trim p.password) h.password_trims h.secret,
          bad_topic-typed_topic (trim p.topic) h.topic_trims h.short_topic,
        )
        (ap updated (patched-details_body p room h))

  -- Of someone who may edit the room, where the trimmed name has 2 to 60 characters, the trimmed topic at
  -- most 200 and a password that is given at least 4 bytes, the number of members is whole and from 2 to
  -- 100, and Rust's trim leaves trimmed texts alone: the server keeps the trimmed name and topic, a blank topic as none, and the choices; it
  -- removes the password, leaves it or sets the one that was typed; and it leaves the rest of the room
  -- alone. The room that is announced then brings back into the panel what was saved, and the field of
  -- the password is blank.
  pub on_saved-details_body :
      (p : SettingsPanel) (room : Stored H)
      → IsSavable p
      → let next = meant p room in
        let q = change_room (some next.details) (on_saved true p) in
        (update_room str_trim chars bytes hash true (details_body p) room ≡ updated next)
        × (q.name ≡ trim p.name)
        × (q.topic ≡ trim p.topic)
        × (q.visibility ≡ p.visibility)
        × (q.category ≡ p.category)
        × (q.max_participants ≡ p.max_participants)
        × (q.password ≡ [])
        × (q.clear_password ≡ false)
        × (q.allow_guest_queue ≡ room.details.allow_guest_queue)
        × (q.vote_skip_ratio ≡ room.details.vote_skip_ratio)
  unfolding change_room seed_from on_saved
  on_saved-details_body p room h = (
    update_room-details_body p room h,
    refl,
    or_blank-kept_topic (trim p.topic),
    refl,
    refl,
    refl,
    refl,
    refl,
    refl,
    refl,
  )

  -- A panel that was seeded from a room, saved again with nothing typed, leaves the room as it was,
  -- where the room's name is trimmed and its topic, if it has one, too and not blank.
  pub update_room-seeded :
      (p : SettingsPanel) (room : Stored H)
      → kept_topic (trim (or_blank room.details.topic)) ≡ room.details.topic
      → trim room.details.name ≡ room.details.name
      → p.clear_password ≡ false
      → is_empty (trim p.password) ≡ true
      → IsSavable (change_room (some room.details) p)
      → update_room str_trim chars bytes hash true
          (details_body (change_room (some room.details) p))
          room
        ≡ updated room
  unfolding change_room seed_from
  update_room-seeded p room t n c b h =
      update_room-details_body (change_room (some room.details) p) room h
      ∙ ap updated (rw (t, n, c, b) refl)
