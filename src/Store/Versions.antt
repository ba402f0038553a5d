-- ===== src/Store/Versions.antt =====
-- Messages that arrive late or out of order (apps/web/src/stores/room-store.ts).
use youtube_rooms.Prelude.{ℕ, ◌≤◌, ◌≡◌, ◌≢◌, Option, none, some, List, [], ◌∷◌, All, arith}
use youtube_rooms.Prelude.Int.{ℤ, ◌≤ℤ◌}
use youtube_rooms.Protocol.Primitives.{UserSummary, QueueItem}
use youtube_rooms.Protocol.Server.{ServerMessage, Ready, UpdateReason}
use youtube_rooms.Timeline.{Timeline}
use youtube_rooms.Store.{RoomState, apply, apply_all}

-- The timeline is there, and its version is `version` at least.
abbrev pub Reaches : ℕ → Option Timeline → Type 0
Reaches version none = ⊥
Reaches version (some tl) = version ≤ tl.version

-- Everything but a snapshot, which sets the timeline whatever its version.
abbrev pub IsUpdate : ServerMessage → Type 0
IsUpdate (ServerMessage.ready r) = ⊥
IsUpdate _ = Unit

-- A message that carries a timeline is reflected.
abbrev pub IsReflected : Option Timeline → ServerMessage → Type 0
IsReflected current (ServerMessage.timeline tl actor reason) = Reaches tl.version current
IsReflected current _ = Unit

apply-Reaches :
    (m : ServerMessage) (s : RoomState) (version : ℕ)
    → IsUpdate m
    → Reaches version s.timeline
    → Reaches version (apply m s).timeline
unfolding apply
apply-Reaches (ServerMessage.timeline tl actor reason) s version u h = ground arith
apply-Reaches _ s version u h = ground arith

apply_all-Reaches :
    (ms : List ServerMessage) (s : RoomState) (version : ℕ)
    → All IsUpdate ms
    → Reaches version s.timeline
    → Reaches version (apply_all ms s).timeline
unfolding apply_all
apply_all-Reaches [] s version u h = h
apply_all-Reaches (m ∷ ms) s version u h =
    apply_all-Reaches ms (apply m s) version u.1 (apply-Reaches m s version u.0 h)

apply-reflects :
    (tl : Timeline) (actor : Option UserSummary) (reason : UpdateReason) (s : RoomState)
    → Reaches tl.version (apply (ServerMessage.timeline tl actor reason) s).timeline
unfolding apply
apply-reflects tl actor reason s = ground arith

-- Between two snapshots no timeline that arrived is lost: the room ends up at a version that is no
-- lower than any of them, in whatever order they came and whatever came between.
pub apply_all-IsReflected :
    (ms : List ServerMessage) (s : RoomState)
    → All IsUpdate ms
    → All (IsReflected (apply_all ms s).timeline) ms
unfolding apply_all
apply_all-IsReflected [] s u = tt
apply_all-IsReflected (ServerMessage.timeline tl actor reason ∷ ms) s u = (
  apply_all-Reaches ms _ tl.version u.1 (apply-reflects tl actor reason s),
  apply_all-IsReflected ms _ u.1,
)
apply_all-IsReflected (m ∷ ms) s u = (tt, apply_all-IsReflected ms (apply m s) u.1)

-- Two timelines of different versions may arrive in either order.
pub timelines_commute :
    (a b : Timeline) (x y : Option UserSummary) (p q : UpdateReason) (s : RoomState)
    → a.version ≢ b.version
    → apply (ServerMessage.timeline a x p) (apply (ServerMessage.timeline b y q) s)
      ≡ apply (ServerMessage.timeline b y q) (apply (ServerMessage.timeline a x p) s)
unfolding apply
timelines_commute a b x y p q s h = ground arith

-- Two queue updates of different versions may arrive in either order.
pub queues_commute :
    (xs ys : List QueueItem) (v w : ℤ) (s : RoomState)
    → v ≢ w
    → apply (ServerMessage.queue_updated xs v) (apply (ServerMessage.queue_updated ys w) s)
      ≡ apply (ServerMessage.queue_updated ys w) (apply (ServerMessage.queue_updated xs v) s)
unfolding apply
queues_commute xs ys v w s h = ground arith

-- A snapshot keeps the version of the queue that it replaces: every update that a restarted server
-- numbers at or below the old version is dropped, and the queue of the snapshot stays.
pub queue_updated-ready :
    (r : Ready) (items : List QueueItem) (version : ℤ) (s : RoomState)
    → version ≤ℤ s.queue_version
    → (apply (ServerMessage.queue_updated items version) (apply (ServerMessage.ready r) s)).queue
      ≡ r.queue
unfolding apply
queue_updated-ready r items version s h = ground arith
