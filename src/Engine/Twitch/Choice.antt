-- ===== src/Engine/Twitch/Choice.antt =====
-- The menu of renditions of apps/web/src/realtime/player/twitch-engine.ts.
use youtube_rooms.Prelude.{
  ℕ, zero, suc, ◌≡◌, ◌∙◌, sym, ap, subst, refl, Bool, true, false, not, ◌||◌, ◌&&◌, Option, none,
  some, List, [], ◌∷◌, ◌++◌, arith, map, All, All-append, get_elem?, Bool-cases, inl, inr,
}
use youtube_rooms.Prelude.Text.{Text, same_text, is_empty, same_text_refl}
use youtube_rooms.Number.{Number, num}
use mathlib.Core.Option.{some_inj}
use mathlib.Core.Bool.{true≢false}
use youtube_rooms.Engine.Twitch.Renditions.{
  Quality, Menu, auto_group, get, has, add_label, label_of, add_group, add_option, collect,
}
use youtube_rooms.Engine.Twitch.Inner.{
  TwitchCommand, set_embed_quality, TwitchEngine, new, api_came, api_failed, start, check,
  apply_pending, read_qualities, adopt, no_menu, offered,
}
use youtube_rooms.Engine.Twitch.{
  attach, on_embed_ready, begin, on_playing, on_pause, on_end, on_offline, play, pause, seek,
  set_volume, set_muted, set_quality, set_group, destroy, Event, step, run,
}

-- A group that the embed knows by name.
abbrev pub is_rendition : Text → Bool
is_rendition group = not (is_empty group) && not (same_text group auto_group)

abbrev pub lists : Text → List Text → Bool
lists label [] = false
lists label (l ∷ ls) = same_text l label || lists label ls

abbrev pub AllDistinct : List Text → Type 0
AllDistinct [] = Unit
AllDistinct (l ∷ ls) = (lists l ls ≡ false) × AllDistinct ls

-- The labels are those of the groups, no two alike, and each group is a rendition.
pub record IsMenu (labels : List Text) (groups : List (Text × Text)) : Type 0 where
  pub same : labels ≡ map (λ g. g.0) groups
  pub distinct : AllDistinct labels
  pub named : All (λ g. is_rendition g.1 ≡ true) groups

has-lists :
    (groups : List (Text × Text)) (label : Text)
    → has groups label ≡ lists label (map (λ g. g.0) groups)
has-lists [] label = refl
has-lists (g ∷ gs) label = ap (λ b. same_text g.0 label || b) (has-lists gs label)

lists-append :
    (l label : Text) (ls : List Text)
    → lists l ls ≡ false
    → same_text label l ≡ false
    → lists l (ls ++ label ∷ []) ≡ false
lists-append l label [] h s = ground arith
lists-append l label (k ∷ ks) h s = ground (arith, lists-append l label ks)

same_text_sym : (s t : Text) → same_text s t ≡ same_text t s
same_text_sym [] [] = refl
same_text_sym [] (y ∷ ys) = refl
same_text_sym (x ∷ xs) [] = refl
same_text_sym (x ∷ xs) (y ∷ ys) = ground (arith, same_text_sym xs ys)

AllDistinct-append :
    (label : Text) (ls : List Text)
    → AllDistinct ls
    → lists label ls ≡ false
    → AllDistinct (ls ++ label ∷ [])
AllDistinct-append label [] h n = (refl, tt)
AllDistinct-append label (l ∷ ls) h n = (
  lists-append l label ls h.0 (ground (arith, same_text_sym l label)),
  AllDistinct-append label ls h.1 (ground arith),
)

map-snoc :
    (gs : List (Text × Text)) (g : Text × Text)
    → map (λ h. h.0) (gs ++ g ∷ []) ≡ map (λ h. h.0) gs ++ g.0 ∷ []
map-snoc [] g = refl
map-snoc (h ∷ hs) g = ap (λ r. h.0 ∷ r) (map-snoc hs g)

add_label-IsMenu :
    (label group : Text) (m : Menu)
    → is_rendition group ≡ true
    → IsMenu m.labels m.groups
    → IsMenu (add_label label group m).labels (add_label label group m).groups
add_label-IsMenu label group m r h = elim (Bool-cases (has m.groups label)) [
  | inl e ↦ ground arith
  | inr e ↦
      subst (λ c. IsMenu c.labels c.groups) (sym (appended e))
        (record {
          same = ap (λ ls. ls ++ label ∷ []) h.same ∙ sym (map-snoc m.groups (label, group));
          distinct =
              AllDistinct-append label m.labels h.distinct
                (ap (lists label) h.same ∙ sym (has-lists m.groups label) ∙ e);
          named =
              All-append (λ g. is_rendition g.1 ≡ true) m.groups ((label, group) ∷ []) h.named
                (r, tt);
        })
]
  where
    appended :
        has m.groups label ≡ false
        → add_label label group m
          ≡ record { labels = m.labels ++ label ∷ []; groups = m.groups ++ (label, group) ∷ [] }
    appended e = ground arith

add_group-IsMenu :
    (group name : Option Text) (m : Menu)
    → IsMenu m.labels m.groups
    → IsMenu (add_group group name m).labels (add_group group name m).groups
unfolding add_group
add_group-IsMenu none name m h = h
add_group-IsMenu (some group) name m h =
    ground (arith, add_label-IsMenu (label_of name group) group m)

collect-IsMenu :
    (options : List Quality) (m : Menu)
    → IsMenu m.labels m.groups
    → IsMenu (collect options m).labels (collect options m).groups
unfolding collect add_option
collect-IsMenu [] m h = h
collect-IsMenu (o ∷ os) m h =
    collect-IsMenu os (add_option o m) (add_group-IsMenu o.group o.name m h)

-- The menu of an engine.
abbrev pub HasMenu : TwitchEngine → Type 0
HasMenu t = IsMenu t.qualities t.groups

HasMenu-same :
    (t u : TwitchEngine) → u.qualities ≡ t.qualities → u.groups ≡ t.groups → HasMenu t → HasMenu u
HasMenu-same t u q g h =
    subst (λ ls. IsMenu ls u.groups) (sym q) (subst (IsMenu t.qualities) (sym g) h)

adopt-HasMenu :
    (menu : Menu) (t : TwitchEngine)
    → IsMenu menu.labels menu.groups
    → HasMenu t
    → HasMenu (adopt menu t)
unfolding adopt
adopt-HasMenu menu t m h = ground arith

read_qualities-HasMenu :
    (options : Option (List Quality)) (t : TwitchEngine)
    → HasMenu t
    → HasMenu (read_qualities options t)
unfolding read_qualities
read_qualities-HasMenu options t h =
    adopt-HasMenu (collect (offered options t.player) no_menu) t
      (collect-IsMenu (offered options t.player) no_menu
        (record { same = refl; distinct = tt; named = tt }))
      h

-- What is left alone by all but `playing`.
start-menu :
    (paused : Option Bool) (t : TwitchEngine)
    → ((start paused t).qualities ≡ t.qualities) × ((start paused t).groups ≡ t.groups)
unfolding start
start-menu paused t = ground arith

attach-menu :
    (paused : Option Bool) (t : TwitchEngine)
    → ((attach paused t).qualities ≡ t.qualities) × ((attach paused t).groups ≡ t.groups)
unfolding attach apply_pending start
attach-menu paused t = ground arith

begin-menu :
    (length : Option Number) (t : TwitchEngine)
    → ((begin length t).qualities ≡ t.qualities) × ((begin length t).groups ≡ t.groups)
unfolding begin
begin-menu length t = ground arith

on_playing-HasMenu :
    (length : Option Number) (options : Option (List Quality)) (t : TwitchEngine)
    → HasMenu t
    → HasMenu (on_playing length options t)
unfolding on_playing
on_playing-HasMenu length options t h = elim (Bool-cases t.constructed) [
  | inl c ↦ ground (
    arith,
    read_qualities-HasMenu options (begin length t)
        (HasMenu-same t (begin length t) (begin-menu length t).0 (begin-menu length t).1 h),
  )
  | inr c ↦ ground arith
]

-- All other events leave the menu alone.
abbrev pub is_start : Event → Bool
is_start (Event.starts length options) = true
is_start _ = false

step-menu :
    (t : TwitchEngine) (e : Event)
    → is_start e ≡ false
    → ((step t e).qualities ≡ t.qualities) × ((step t e).groups ≡ t.groups)
unfolding step start check play seek api_came api_failed on_embed_ready on_pause on_end on_offline
    pause set_volume set_muted set_quality destroy
step-menu t (Event.starts length options) n = cc
step-menu t (Event.gets_ready paused) n = ground (arith, attach-menu paused t)
step-menu t (Event.seeks (num position) length) n = ground arith
step-menu t (Event.seeks _ length) n = (refl, refl)
step-menu t (Event.sets_quality none) n = ground arith
step-menu t (Event.sets_quality (some label)) n = ground arith
step-menu t _ n = ground arith

step-HasMenu : (t : TwitchEngine) (e : Event) → HasMenu t → HasMenu (step t e)
unfolding step
step-HasMenu t (Event.starts length options) h = on_playing-HasMenu length options t h
step-HasMenu t e h = kept e refl h
  where
    kept : (e : Event) → is_start e ≡ false → HasMenu t → HasMenu (step t e)
    kept e n h = HasMenu-same t (step t e) (step-menu t e n).0 (step-menu t e n).1 h

run-HasMenu : (t : TwitchEngine) (es : List Event) → HasMenu t → HasMenu (run t es)
unfolding run
run-HasMenu t [] h = h
run-HasMenu t (e ∷ es) h = run-HasMenu (step t e) es (step-HasMenu t e h)

new-HasMenu : (url : Option (List Text)) → HasMenu (new url)
unfolding new
new-HasMenu url = ground arith

-- The group of a label of the menu.
get_lem :
    (groups : List (Text × Text)) (i : ℕ) (label : Text)
    → get_elem? (map (λ g. g.0) groups) i ≡ some label
    → All (λ g. is_rendition g.1 ≡ true) groups
    → (group : Text) × (get groups label ≡ some group) × (is_rendition group ≡ true)
get_lem [] i label e a = cc
get_lem (g ∷ gs) i label e a = elim (Bool-cases (same_text g.0 label)) [
  | inl s ↦ (g.1, ground arith, a.0)
  | inr s ↦ later gs i e s a.1 (λ j f. get_lem gs j label f a.1)
]
  where
    later :
        (hs : List (Text × Text)) (j : ℕ)
        → get_elem? (map (λ g. g.0) (g ∷ hs)) j ≡ some label
        → same_text g.0 label ≡ false
        → All (λ g. is_rendition g.1 ≡ true) hs
        → ((k : ℕ)
            → get_elem? (map (λ g. g.0) hs) k ≡ some label
            → (group : Text) × (get hs label ≡ some group) × (is_rendition group ≡ true))
        → (group : Text) × (get (g ∷ hs) label ≡ some group) × (is_rendition group ≡ true)
    later hs zero f s b ih = absurd (
        true≢false
          (sym (subst (λ l. same_text g.0 l ≡ true) (some_inj.0 f) (same_text_refl g.0)) ∙ s))
    later hs (suc k) f s b ih = let r = ih k f in (r.0, ground (arith, r.1), r.2)

-- The embed was told last to show a rendition.
abbrev pub told_rendition : List TwitchCommand → Bool
told_rendition (set_embed_quality group ∷ cs) = is_rendition group
told_rendition _ = false

set_group-told :
    (group label : Text) (t : TwitchEngine)
    → is_rendition group ≡ true
    → ((set_group (some group) label t).pinned ≡ some label)
      × (told_rendition (set_group (some group) label t).commands ≡ true)
unfolding set_group
set_group-told group label t r = ground arith

set_quality-group :
    (label group : Text) (t : TwitchEngine)
    → t.player ≡ true
    → get t.groups label ≡ some group
    → set_quality (some label) t ≡ set_group (some group) label t
unfolding set_quality
set_quality-group label group t p e = rw (p, e) refl

set_quality-told :
    (t : TwitchEngine) (i : ℕ) (label : Text)
    → HasMenu t
    → get_elem? t.qualities i ≡ some label
    → t.player ≡ true
    → ((set_quality (some label) t).pinned ≡ some label)
      × (told_rendition (set_quality (some label) t).commands ≡ true)
set_quality-told t i label h e p =
    let r = get_lem t.groups i label (ap (λ ls. get_elem? ls i) (sym h.same) ∙ e) h.named in
    subst (λ u. (u.pinned ≡ some label) × (told_rendition u.commands ≡ true))
      (sym (set_quality-group label r.0 t p r.1)) (set_group-told r.0 label t r.2)

-- Whatever lists of renditions the embed gave, in whatever order of events, the labels of the menu
-- are all distinct; and choosing one of them, once there is a player, pins it and tells the embed a
-- group that it offered by name, never an empty one or `auto`.
pub run-set_quality :
    (url : Option (List Text)) (es : List Event) (i : ℕ) (label : Text)
    → get_elem? (run (new url) es).qualities i ≡ some label
    → (run (new url) es).player ≡ true
    → AllDistinct (run (new url) es).qualities
      × ((set_quality (some label) (run (new url) es)).pinned ≡ some label)
      × (told_rendition (set_quality (some label) (run (new url) es)).commands ≡ true)
run-set_quality url es i label e p =
    let h = run-HasMenu (new url) es (new-HasMenu url) in
    let told = set_quality-told (run (new url) es) i label h e p in (h.distinct, told.0, told.1)
