-- ===== src/Shell/Actions.antt =====
-- useShortcutActions of apps/web/src/components/room/room-shell.tsx: what the keys of Shortcuts do to the
-- shell.
use youtube_rooms.Prelude.{
  ℕ, suc, ◌≡◌, ap, sym, ◌∙◌, Bool, true, not, ◌||◌, List, [], ◌∷◌, arith, if◌then◌else◌,
}
use youtube_rooms.Shortcuts
use youtube_rooms.Shortcuts.{
  KeyPress, Key, key_t, key_c, key_q, key_u, slash, Local, mutes, requests_fullscreen,
  toggles_theatre, focuses_chat, focuses_search, toggles_help, shows_panel, Outcome, on_key,
  on_key_down, intent, seek_by, scrub,
}
use youtube_rooms.Shell.{RoomShell, Panel, chat, queue, people, is_chat, read}
use youtube_rooms.Shell.Theatre.{Theatre, set_theatre}
use youtube_rooms.Store.{mark_chat_read}

-- The shell with its theatre mode, how often the chat's field was to be focused in the next frame, the
-- help was shown, and the picture was to fill the screen; and the calls of the engine's mute.
pub record Page : Type 0 where
  pub shell : RoomShell
  pub theatre : Theatre
  pub focused : ℕ
  pub helped : ℕ
  pub filled : ℕ
  pub muted : ℕ

abbrev pub panel_of : Shortcuts.Panel → Panel
panel_of Shortcuts.chat = chat
panel_of Shortcuts.queue = queue
panel_of Shortcuts.people = people

-- setPanel
abbrev pub set_panel : Panel → Page → Page
set_panel panel p = record p { shell = record p.shell { panel = panel } }

-- The actions.
unfoldable pub perform : Local → Page → Page
perform mutes p = record p { muted = suc p.muted }
perform requests_fullscreen p = record p { filled = suc p.filled }
perform toggles_theatre p = record p { theatre = set_theatre (not p.theatre.theatre) p.theatre }
perform focuses_chat p = set_panel chat (record p { focused = suc p.focused })
perform focuses_search p = set_panel queue p
perform toggles_help p = record p { helped = suc p.helped }
perform (shows_panel panel) p = set_panel (panel_of panel) p

unfoldable pub perform_all : List Local → Page → Page
perform_all [] p = p
perform_all (l ∷ ls) p = perform_all ls (perform l p)

-- A key, and the effect on the panel once its calls are rendered.
unfoldable pub press_key : KeyPress → ℕ → Shortcuts.Room → Page → Page
press_key press now room p =
    let done = perform_all (on_key_down press now room).local p in
    record done { shell = read done.shell }

-- What the keys are for.
abbrev pub panel_for : Key → Panel → Panel
panel_for key_c panel = chat
panel_for key_q panel = queue
panel_for slash panel = queue
panel_for key_u panel = people
panel_for _ panel = panel

abbrev pub theatre_for : Key → Bool → Bool
theatre_for key_t theatre = not theatre
theatre_for _ theatre = theatre

abbrev pub is_ignored : KeyPress → Bool
is_ignored press = press.ctrl || press.meta || press.alt || press.typing

read-panel : (s : RoomShell) → (read s).panel ≡ s.panel
unfolding read
read-panel s = ground arith

read-unread : (s : RoomShell) → is_chat s.panel ≡ true → (read s).store.unread_chat ≡ 0
unfolding read mark_chat_read
read-unread s h = ground arith

perform_all-on_key :
    (k : Key) (shift : Bool) (now : ℕ) (room : Shortcuts.Room) (p : Page)
    → ((perform_all (on_key k shift now room).local p).shell.panel ≡ panel_for k p.shell.panel)
      × ((perform_all (on_key k shift now room).local p).theatre.theatre
          ≡ theatre_for k p.theatre.theatre)
unfolding perform_all perform on_key scrub set_theatre
perform_all-on_key k shift now room p = ground arith

perform_all-on_key_down :
    (press : KeyPress) (now : ℕ) (room : Shortcuts.Room) (p : Page)
    → let done = perform_all (on_key_down press now room).local p in
      (done.shell.panel
        ≡ (if is_ignored press then p.shell.panel else panel_for press.key p.shell.panel))
      × (done.theatre.theatre ≡ (
          if is_ignored press then p.theatre.theatre else theatre_for press.key p.theatre.theatre))
unfolding on_key_down perform_all
perform_all-on_key_down press now room p =
    ground (arith, perform_all-on_key press.key press.shift now room p)

-- A key that is pressed alone, outside a field, brings its panel to the front, t changes the theatre
-- mode, and every other key leaves both; a key of the browser, or in a field, leaves both too. Where the
-- chat is in front afterwards, nothing in it is unread.
pub press_key-panel :
    (press : KeyPress) (now : ℕ) (room : Shortcuts.Room) (p : Page)
    → let q = press_key press now room p in
      (q.shell.panel
        ≡ (if is_ignored press then p.shell.panel else panel_for press.key p.shell.panel))
      × (q.theatre.theatre ≡ (
          if is_ignored press then p.theatre.theatre else theatre_for press.key p.theatre.theatre))
      × (is_chat q.shell.panel ≡ true → q.shell.store.unread_chat ≡ 0)
unfolding press_key
press_key-panel press now room p =
    let done = perform_all (on_key_down press now room).local p in
    let keys = perform_all-on_key_down press now room p in
    (
      read-panel done.shell ∙ keys.0,
      keys.1,
      λ c. read-unread done.shell (ap is_chat (sym (read-panel done.shell)) ∙ c),
    )
