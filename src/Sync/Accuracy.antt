-- ===== src/Sync/Accuracy.antt =====
-- How far from the room's true position apps/web/src/realtime/use-player-sync.ts puts a player.
use youtube_rooms.Prelude.{
  ℕ, suc, ◌+◌, ◌*◌, ◌≤◌, ◌<◌, ◌≡◌, refl, ap, ◌⊎◌, inl, inr, true, List, length, All, All-imp, arith,
}
use youtube_rooms.Prelude.Int.{
  ℤ, pos, negsuc, pos_part, neg_part, ◌+ℤ◌, ◌-ℤ◌, ◌*ℤ◌, +ℤ_parts, -ℤ_parts, *ℤ_pos_part,
  *ℤ_neg_part,
}
use youtube_rooms.Timeline.{Timeline, position_at}
use youtube_rooms.Timeline.Position.{After, position_at_later}
use youtube_rooms.Clock.{ClockEstimator, server_now, new}
use youtube_rooms.Clock.Filter.{baseline_of}
use youtube_rooms.Clock.Accuracy.{Within, IsAccurate}
use youtube_rooms.Clock.History.{Event, IsTruthful, history, history-new-Inv}
use youtube_rooms.Sync.{Player, Command, play, pause, seeks, set_rate, follow}
use youtube_rooms.Sync.Commands.{Fits, target_of, follow-Fits}

-- The server's clock when the local one shows `now`, in quarters of a microsecond.
abbrev pub true_server_time : ℤ → ℕ → ℤ
true_server_time truth now = (pos now +ℤ truth) *ℤ 4

server_now-Within :
    (truth : ℤ) (c : ClockEstimator) (now : ℕ)
    → IsAccurate truth c
    → Within (true_server_time truth now) (3 * baseline_of c) (server_now c now)
unfolding server_now
server_now-Within truth c now h = omega (
  arith,
  +ℤ_parts (pos (4 * now)) c.offset,
  +ℤ_parts (pos now) truth,
  *ℤ_pos_part (pos now +ℤ truth) 4,
  *ℤ_neg_part (pos now +ℤ truth) 4,
  *ℤ_pos_part truth 4,
  *ℤ_neg_part truth 4,
)

-- Two numbers are within `r` of each other.
abbrev pub Near : ℕ → ℕ → ℕ → Type 0
Near r a b = (a ≤ b + r) × (b ≤ a + r)

After-of : (t u : ℤ) (k : ℕ) → u -ℤ t ≡ pos k → After u t k
After-of t u k e = omega (arith, -ℤ_parts u t, ap pos_part e, ap neg_part e)

Before-of : (t u : ℤ) (k : ℕ) → u -ℤ t ≡ negsuc k → After t u (suc k)
Before-of t u k e = omega (arith, -ℤ_parts u t, ap pos_part e, ap neg_part e)

-- Instants that are near give positions that are near.
position_at-Near :
    (tl : Timeline) (t u : ℤ) (r : ℕ)
    → Within t r u
    → Near (r * tl.rate) (position_at tl t) (position_at tl u)
position_at-Near tl t u r h = go (u -ℤ t) refl
  where
    go : (d : ℤ) → u -ℤ t ≡ d → Near (r * tl.rate) (position_at tl t) (position_at tl u)
    go (pos k) e = grind (arith, position_at_later tl t u k (After-of t u k e), After-of t u k e)
    go (negsuc k) e =
        grind (arith, position_at_later tl u t (suc k) (Before-of t u k e), Before-of t u k e)

target-Near :
    (truth : ℤ) (tl : Timeline) (c : ClockEstimator) (now : ℕ)
    → IsAccurate truth c
    → Near
        (3 * baseline_of c * tl.rate)
        (position_at tl (true_server_time truth now))
        (target_of tl c now)
target-Near truth tl c now h =
    position_at-Near tl (true_server_time truth now) (server_now c now) (3 * baseline_of c)
      (server_now-Within truth c now h)

-- A command that moves the player moves it near the room's true position, or to the start of a
-- source that waits for its start.
abbrev pub IsNearTruth : ℤ → Timeline → ClockEstimator → ℕ → Command → Type 0
IsNearTruth truth tl c now (seeks position) =
    ((tl.awaiting_start ≡ true) × (position ≡ 0))
    ⊎ Near (3 * baseline_of c * tl.rate) (position_at tl (true_server_time truth now)) position
IsNearTruth truth tl c now _ = Unit

Fits-IsNearTruth :
    (truth : ℤ) (player : Player) (tl : Timeline) (c : ClockEstimator) (now : ℕ) (m : Command)
    → IsAccurate truth c
    → Fits player tl c now m
    → IsNearTruth truth tl c now m
Fits-IsNearTruth truth player tl c now (seeks position) a f =
    ground (arith, target-Near truth tl c now a)
Fits-IsNearTruth truth player tl c now play a f = tt
Fits-IsNearTruth truth player tl c now pause a f = tt
Fits-IsNearTruth truth player tl c now (set_rate rate) a f = tt

-- After every history of truthful probes that left a sample, each tick that moves a player puts it
-- within three quarters of the 20th percentile round trip, times the rate, of where the room truly
-- is by the server's clock, or at the start of a source that waits.
pub follow-IsNearTruth :
    (truth : ℤ) (es : List Event) (player : Player) (tl : Timeline) (now applied : ℕ)
    → All (IsTruthful truth) es
    → 0 < length (history new es).samples
    → All
        (IsNearTruth truth tl (history new es) now)
        (follow player tl (history new es) now applied).0
follow-IsNearTruth truth es player tl now applied h left =
    All-imp (Fits player tl c now) (IsNearTruth truth tl c now) (follow player tl c now applied).0
      (λ m f. Fits-IsNearTruth truth player tl c now m accurate f)
      (follow-Fits player tl c now applied)
  where
    c : ClockEstimator
    c = history new es

    accurate : IsAccurate truth c
    accurate = elim (history-new-Inv truth es h).accurate [
      | inl empty ↦ absurd (omega (arith, empty))
      | inr a ↦ a
    ]
