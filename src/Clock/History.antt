-- ===== src/Clock/History.antt =====
-- Every history of calls on the ClockEstimator of apps/web/src/realtime/clock.ts.
use youtube_rooms.Prelude.{
  ℕ, ◌*◌, ◌≤◌, ◌<◌, ◌≡◌, refl, ap, sym, subst, ◌||◌, ◌&&◌, false, ◌⊎◌, inl, inr, List, [], ◌∷◌,
  ◌++◌, Bool-cases, ltb, length, All, arith, All-append, All-drop, length-append, length-drop,
}
use youtube_rooms.Prelude.Int.{
  ℤ, pos, negsuc, pos_part, neg_part, abs, ltb_ℤ, ◌+ℤ◌, ◌-ℤ◌, ◌*ℤ◌, ◌≤ℤ◌, +ℤ_parts, -ℤ_parts,
  *ℤ_pos_part, *ℤ_neg_part,
}
use youtube_rooms.Number.{Number, num, is_finite}
use youtube_rooms.Units.{ms_time}
use youtube_rooms.Clock.{
  ClockSample, ClockEstimator, recompute, add_sample, fold_in, seed, reset, push_sample, new,
  window, max_rtt_ms,
}
use youtube_rooms.Clock.Filter.{recompute_nonempty, recompute-rtt}
use youtube_rooms.Clock.Accuracy.{IsSound, IsAccurate, recomputed-IsAccurate}

-- One call on the estimator.
pub data Event : Type 0 where
  probed : ℕ → Number → Number → Event
  seeded : ℕ → ℤ → Event
  cleared : Event

unfoldable pub handle : ClockEstimator → Event → ClockEstimator
handle c (probed now client_sent server_time) = add_sample c now client_sent server_time
handle c (seeded now server_time) = seed c now server_time
handle c cleared = reset c

unfoldable pub history : ClockEstimator → List Event → ClockEstimator
history c [] = c
history c (e ∷ es) = history (handle c e) es

-- The server stamped its answer, by a clock that is `truth` ahead, after the probe was sent and
-- before the answer came. Nothing is asked of a seed, nor of a probe that is not finite.
abbrev pub IsTruthful : ℤ → Event → Type 0
IsTruthful truth (probed now (num client_sent) (num server_time)) =
    (client_sent +ℤ truth ≤ℤ server_time) × (server_time ≤ℤ pos now +ℤ truth)
IsTruthful truth _ = Unit

pub record Inv (truth : ℤ) (c : ClockEstimator) : Type 0 where
  pub bounded : length c.samples ≤ window
  pub counted : c.survivor_count ≤ length c.samples
  pub sound : All (IsSound truth) c.samples
  pub accurate : (length c.samples ≡ 0) ⊎ IsAccurate truth c

-- The sample that a truthful probe gives.
abbrev sample_of : ℕ → ℕ → ℤ → ClockSample
sample_of now rtt server_time = record {
  rtt = rtt;
  offset = server_time *ℤ 2 +ℤ pos rtt -ℤ pos (2 * now);
  at = now;
}

sample_of-IsSound :
    (truth client_sent server_time : ℤ) (now rtt : ℕ)
    → client_sent +ℤ truth ≤ℤ server_time
    → server_time ≤ℤ pos now +ℤ truth
    → pos now -ℤ client_sent ≡ pos rtt
    → IsSound truth (sample_of now rtt server_time)
sample_of-IsSound truth client_sent server_time now rtt after before e = omega (
  arith,
  ap pos_part e,
  ap neg_part e,
  +ℤ_parts client_sent truth,
  +ℤ_parts (pos now) truth,
  -ℤ_parts (pos now) client_sent,
  -ℤ_parts (server_time *ℤ 2 +ℤ pos rtt) (pos (2 * now)),
  +ℤ_parts (server_time *ℤ 2) (pos rtt),
  *ℤ_pos_part server_time 2,
  *ℤ_neg_part server_time 2,
  *ℤ_pos_part truth 2,
  *ℤ_neg_part truth 2,
)

push_sample-bounded :
    (xs : List ClockSample) (s : ClockSample)
    → length xs ≤ window
    → (length (push_sample xs s) ≤ window) × (0 < length (push_sample xs s))
push_sample-bounded xs s h = ground (arith, length-append xs (s ∷ []), length-drop 1 (xs ++ s ∷ []))

All-push_sample :
    (P : ClockSample → Type 0) (xs : List ClockSample) (s : ClockSample)
    → All P xs
    → P s
    → All P (push_sample xs s)
All-push_sample P xs s h p =
    ground (arith, All-append P xs (s ∷ []) h (p, tt), All-drop P 1 (xs ++ s ∷ []))

recompute-Inv :
    (truth : ℤ) (c : ClockEstimator)
    → length c.samples ≤ window
    → 0 < length c.samples
    → All (IsSound truth) c.samples
    → Inv truth (recompute c)
recompute-Inv truth c b l h = rw (recompute_nonempty c l) (record {
  bounded = b;
  counted = (rw (recompute_nonempty c l) at (recompute-rtt c l)).2;
  sound = h;
  accurate = inr (recomputed-IsAccurate truth c l h);
})

fold_in-Inv :
    (truth client_sent server_time : ℤ) (c : ClockEstimator) (now rtt : ℕ)
    → client_sent +ℤ truth ≤ℤ server_time
    → server_time ≤ℤ pos now +ℤ truth
    → pos now -ℤ client_sent ≡ pos rtt
    → Inv truth c
    → Inv truth (fold_in c now rtt (num server_time))
unfolding fold_in
fold_in-Inv truth client_sent server_time c now rtt after before e v =
    let s = sample_of now rtt server_time in
    let size = push_sample-bounded c.samples s v.bounded in
    recompute-Inv truth _ size.0 size.1 (
      All-push_sample (IsSound truth) c.samples s v.sound
        (sample_of-IsSound truth client_sent server_time now rtt after before e))

nonneg : (d : ℤ) → ltb_ℤ d (pos 0) ≡ false → d ≡ pos (pos_part d)
nonneg (pos n) h = refl
nonneg (negsuc n) h = ground arith

probed-Inv :
    (truth client_sent server_time : ℤ) (c : ClockEstimator) (now : ℕ)
    → client_sent +ℤ truth ≤ℤ server_time
    → server_time ≤ℤ pos now +ℤ truth
    → Inv truth c
    → Inv truth (add_sample c now (num client_sent) (num server_time))
unfolding add_sample
probed-Inv truth client_sent server_time c now after before v =
    elim (Bool-cases (ltb_ℤ d (pos 0) || ltb (ms_time max_rtt_ms) (abs d))) [
      | inl refused ↦ rw refused v
      | inr taken ↦ rw taken (
          fold_in-Inv truth client_sent server_time c now (pos_part d) after before
            (nonneg d (ground arith)) v)
    ]
  where
    d : ℤ
    d = pos now -ℤ client_sent

not_finite-same :
    (c : ClockEstimator) (now : ℕ) (client_sent server_time : Number)
    → (is_finite client_sent && is_finite server_time) ≡ false
    → add_sample c now client_sent server_time ≡ c
unfolding add_sample fold_in
not_finite-same c now client_sent server_time h = ground arith

seed-Inv :
    (truth server_time : ℤ) (c : ClockEstimator) (now : ℕ)
    → Inv truth c
    → Inv truth (seed c now server_time)
unfolding seed
seed-Inv truth server_time c now v = ground arith

reset-Inv : (truth : ℤ) (c : ClockEstimator) → Inv truth c → Inv truth (reset c)
unfolding reset
reset-Inv truth c v = ground arith

handle-Inv :
    (truth : ℤ) (c : ClockEstimator) (e : Event)
    → IsTruthful truth e
    → Inv truth c
    → Inv truth (handle c e)
unfolding handle
handle-Inv truth c (probed now (num client_sent) (num server_time)) h v =
    probed-Inv truth client_sent server_time c now h.0 h.1 v
handle-Inv truth c (seeded now server_time) h v = seed-Inv truth server_time c now v
handle-Inv truth c cleared h v = reset-Inv truth c v
handle-Inv truth c (probed now client_sent server_time) h v =
    subst (Inv truth) (sym (not_finite-same c now client_sent server_time refl)) v

new-Inv : (truth : ℤ) → Inv truth new
unfolding new
new-Inv truth = ground arith

history-Inv :
    (truth : ℤ) (c : ClockEstimator) (es : List Event)
    → All (IsTruthful truth) es
    → Inv truth c
    → Inv truth (history c es)
unfolding history
history-Inv truth c [] h v = v
history-Inv truth c (e ∷ es) h v =
    history-Inv truth (handle c e) es h.1 (handle-Inv truth c e h.0 v)

-- After every history of probes that the server answered truthfully, of seeds and of resets, the
-- window holds at most 32 samples, each off by half its round trip at most, the reported count of
-- survivors is no more than that, and unless the window is empty the estimated offset is within
-- three quarters of the window's 20th percentile round trip of the true one.
pub history-new-Inv :
    (truth : ℤ) (es : List Event) → All (IsTruthful truth) es → Inv truth (history new es)
history-new-Inv truth es h = history-Inv truth new es h (new-Inv truth)
