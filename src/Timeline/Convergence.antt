-- ===== src/Timeline/Convergence.antt =====
-- What the corrections of packages/protocol/src/timeline.ts lead to: a player that obeys them and
-- runs at the rate it was given, checked once in every CHECK_INTERVAL_MS.
use youtube_rooms.Prelude.{
  ℕ, zero, suc, ◌+◌, ◌*◌, ◌/◌, ◌≤◌, ◌<◌, ◌⊎◌, inl, inr, true, false, ltb, Bool-cases, arith, ltb→lt,
}
use youtube_rooms.Prelude.Int.{ℤ, pos, abs, ◌+ℤ◌, ◌-ℤ◌}
use youtube_rooms.Number.{num}
use youtube_rooms.Units.{ms_position, nominal}
use youtube_rooms.Timeline.{
  Correction, no_action, nudge, seek, Options, dead_band_ms, hard_seek_ms, check_interval_ms,
  decide_correction,
}

-- A player and the position that it should have.
pub record Pursuit : Type 0 where
  pub observed : ℤ
  pub target : ℕ

abbrev pub drift : Pursuit → ℤ
drift p = p.observed -ℤ pos p.target

-- How far a player at `rate` eightieths gets until the next check.
abbrev pub advance : ℕ → ℕ
advance rate = rate * (ms_position check_interval_ms / 80)

abbrev pub settled : Options
settled = record { buffering = false; confident = true; paused = false }

abbrev pub obey : Correction → ℤ → ℕ → ℤ
obey no_action observed rate = observed +ℤ pos (advance (nominal rate))
obey (nudge to) observed rate = observed +ℤ pos (advance to)
obey (seek to) observed rate = pos to +ℤ pos (advance (nominal rate))

-- One check and the interval after it, for a room that plays at `rate` quarters.
unfoldable pub round : ℕ → Pursuit → Pursuit
round rate p = record {
  observed = obey (decide_correction (num p.observed) p.target rate settled) p.observed rate;
  target = p.target + advance (nominal rate);
}

unfoldable pub rounds : ℕ → ℕ → Pursuit → Pursuit
rounds zero rate p = p
rounds (suc n) rate p = rounds n rate (round rate p)

round_within :
    (rate : ℕ) (p : Pursuit)
    → abs (drift p) < ms_position dead_band_ms
    → abs (drift (round rate p)) < ms_position dead_band_ms
unfolding round decide_correction ◌+ℤ◌ ◌-ℤ◌
round_within rate p h = ground arith

round_nearer :
    (rate : ℕ) (p : Pursuit)
    → 1 ≤ rate
    → rate ≤ 7
    → (abs (drift (round rate p)) < ms_position dead_band_ms)
      ⊎ (abs (drift (round rate p)) + 200000 ≤ abs (drift p))
unfolding round decide_correction ◌+ℤ◌ ◌-ℤ◌
round_nearer rate p h k = ground arith

rounds_within :
    (n rate : ℕ) (p : Pursuit)
    → abs (drift p) < ms_position dead_band_ms
    → abs (drift (rounds n rate p)) < ms_position dead_band_ms
unfolding rounds
rounds_within zero rate p h = h
rounds_within (suc n) rate p h = rounds_within n rate (round rate p) (round_within rate p h)

rounds_bound :
    (n rate : ℕ) (p : Pursuit)
    → 1 ≤ rate
    → rate ≤ 7
    → abs (drift p) < ms_position dead_band_ms + n * 200000
    → abs (drift (rounds n rate p)) < ms_position dead_band_ms
unfolding rounds
rounds_bound zero rate p l u h = omega arith
rounds_bound (suc n) rate p l u h = elim (round_nearer rate p l u) [
  | inl near ↦ rounds_within n rate (round rate p) near
  | inr less ↦ rounds_bound n rate (round rate p) l u (omega arith)
]

round_seeks :
    (rate : ℕ) (p : Pursuit)
    → ms_position hard_seek_ms ≤ abs (drift p)
    → abs (drift (round rate p)) < ms_position dead_band_ms
unfolding round decide_correction ◌+ℤ◌ ◌-ℤ◌
round_seeks rate p h = ground arith

-- A simulated player that obeys each correction at once, runs at exactly the rate that it was given, never
-- buffers, and is checked once in every CHECK_INTERVAL_MS while the room plays and the clock is
-- confident: at every rate of the room of one to seven quarters, however far off it starts, it is
-- within 50 ms of the room after each number of checks from 116 on.
pub rounds_converge :
    (n rate : ℕ) (p : Pursuit)
    → 116 ≤ n
    → 1 ≤ rate
    → rate ≤ 7
    → abs (drift (rounds n rate p)) < ms_position dead_band_ms
unfolding rounds
rounds_converge zero rate p h l u = absurd (omega arith)
rounds_converge (suc n) rate p h l u =
    elim (Bool-cases (ltb (abs (drift p)) (ms_position hard_seek_ms))) [
      | inl near ↦ rounds_bound (suc n) rate p l u (omega (arith, ltb→lt _ _ near))
      | inr far ↦ rounds_within n rate (round rate p) (round_seeks rate p (ground arith))
    ]
