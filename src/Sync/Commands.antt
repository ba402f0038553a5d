-- ===== src/Sync/Commands.antt =====
-- Which commands a tick of apps/web/src/realtime/use-player-sync.ts gives, and when.
use youtube_rooms.Prelude.{
  ℕ, ◌*◌, ◌≡◌, refl, ◌⊎◌, inl, inr, true, false, List, [], ◌∷◌, All, arith, Bool-cases,
}
use youtube_rooms.Number.{Number}
use youtube_rooms.Units.{nominal}
use youtube_rooms.Timeline.{
  Timeline, Correction, no_action, nudge, seek, Options, position_at, decide_correction,
}
use youtube_rooms.Clock.{ClockEstimator, server_now, status}
use youtube_rooms.Sync.{Player, Command, play, pause, seeks, set_rate, Loop, correct, follow, tick}

abbrev pub target_of : Timeline → ClockEstimator → ℕ → ℕ
target_of tl clock now = position_at tl (server_now clock now)

-- When a command may be given.
abbrev pub Fits : Player → Timeline → ClockEstimator → ℕ → Command → Type 0
Fits player tl clock now play = (tl.paused ≡ false) × (tl.awaiting_start ≡ false)
Fits player tl clock now pause = (tl.paused ≡ true) ⊎ (tl.awaiting_start ≡ true)
Fits player tl clock now (seeks position) =
    ((tl.awaiting_start ≡ true) × (position ≡ 0))
    ⊎ ((tl.awaiting_start ≡ false)
        × (player.live ≡ false)
        × (position ≡ target_of tl clock now)
        × ((tl.paused ≡ true) ⊎ (player.buffering ≡ false)))
Fits player tl clock now (set_rate rate) =
    (tl.paused ≡ false)
    × (tl.awaiting_start ≡ false)
    × (player.live ≡ false)
    × ((rate ≡ nominal tl.rate)
        ⊎ ((player.buffering ≡ false)
            × ((status clock).confident ≡ true)
            × ((rate ≡ tl.rate * 19) ⊎ (rate ≡ tl.rate * 21))))

-- What a correction says of the options that it was made under.
abbrev Grounds : ℕ → ℕ → Options → Correction → Type 0
Grounds target rate opts no_action = Unit
Grounds target rate opts (seek to) = (to ≡ target) × (opts.buffering ≡ false)
Grounds target rate opts (nudge to) =
    (opts.buffering ≡ false) × (opts.confident ≡ true) × ((to ≡ rate * 19) ⊎ (to ≡ rate * 21))

decide_correction-Grounds :
    (observed : Number) (target rate : ℕ) (opts : Options) (c : Correction)
    → decide_correction observed target rate opts ≡ c
    → Grounds target rate opts c
unfolding decide_correction
decide_correction-Grounds observed target rate opts no_action e = tt
decide_correction-Grounds observed target rate opts (seek to) e = ground arith
decide_correction-Grounds observed target rate opts (nudge to) e = ground arith

correct-Fits :
    (player : Player) (tl : Timeline) (clock : ClockEstimator) (now applied : ℕ) (opts : Options)
    (c : Correction)
    → tl.awaiting_start ≡ false
    → player.live ≡ false
    → tl.paused ≡ false
    → opts.buffering ≡ player.buffering
    → opts.confident ≡ (status clock).confident
    → Grounds (target_of tl clock now) tl.rate opts c
    → All (Fits player tl clock now) (correct c tl.rate applied).0
unfolding correct
correct-Fits player tl clock now applied opts no_action a l p b t g = ground arith
correct-Fits player tl clock now applied opts (seek to) a l p b t g = ground arith
correct-Fits player tl clock now applied opts (nudge to) a l p b t g = ground arith

-- Each command of a tick fits the state of the room. It plays only where the room is neither paused nor
-- waiting for its start, and pauses only where it is one of the two. It seeks either to 0, while the
-- room waits for its start, whatever the player is at; or, while it does not wait, to the position of
-- the timeline at the estimated time, a player that is not live, and one that buffers only in a paused
-- room. It sets a rate only while the room plays, of a player that is not live: the rate of the room,
-- or, with a confident clock and a player that does not buffer, one that is a twentieth off it.
pub follow-Fits :
    (player : Player) (tl : Timeline) (clock : ClockEstimator) (now applied : ℕ)
    → All (Fits player tl clock now) (follow player tl clock now applied).0
unfolding follow
follow-Fits player tl clock now applied = elim (Bool-cases tl.awaiting_start) [
  | inl a ↦ ground arith
  | inr a ↦ elim (Bool-cases player.live) [
    | inl l ↦ ground arith
    | inr l ↦ elim (Bool-cases tl.paused) [
      | inl p ↦ ground arith
      | inr p ↦
          let opts : Options = record {
            buffering = player.buffering;
            confident = (status clock).confident;
            paused = tl.paused;
          } in
          let c = decide_correction player.current_time (target_of tl clock now) tl.rate opts in
          ground (
            arith,
            correct-Fits player tl clock now applied opts c a l p refl refl (
                decide_correction-Grounds player.current_time (target_of tl clock now) tl.rate opts
                  c refl),
          )
    ]
  ]
]

-- The rate at which a player runs after some commands.
abbrev pub rate_after : List Command → ℕ → ℕ
rate_after [] rate = rate
rate_after (set_rate to ∷ cs) rate = rate_after cs to
rate_after (_ ∷ cs) rate = rate_after cs rate

-- The rate that the hook remembers is the rate at which the player runs, on every path of a tick.
pub rate_after-tick :
    (l : Loop) (now : ℕ) → rate_after (tick l now).0 l.applied_rate ≡ (tick l now).1
unfolding tick follow
rate_after-tick l now = ground arith
