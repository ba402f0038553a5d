-- ===== src/Clock/Probing.antt =====
-- startProbing of apps/web/src/realtime/clock.ts: a burst of probes, then a steady rhythm.
use youtube_rooms.Prelude.{
  ℕ, suc, ◌+◌, ◌-◌, ◌≡◌, refl, ap, sym, subst, ◌∙◌, true, false, Bool, Option, none, some, List, [],
  ◌∷◌, ltb, if◌then◌else◌, arith, length,
}
use youtube_rooms.Clock.{burst_count, burst_interval_ms, steady_interval_ms}

-- The variables of the closure; `timer` is the delay of the timeout that is armed. `probes` counts
-- the calls of `send`.
pub record Prober : Type 0 where
  pub stopped : Bool
  pub bursts_left : ℕ
  pub timer : Option ℕ
  pub probes : ℕ

-- tick; `visible` is the test on document.visibilityState.
unfoldable pub tick : Bool → Prober → Prober
tick visible p = if p.stopped then p else record p {
  probes = if visible then p.probes + 1 else p.probes;
  timer = some (if ltb 0 p.bursts_left then burst_interval_ms else steady_interval_ms);
  bursts_left = if ltb 0 p.bursts_left then p.bursts_left - 1 else p.bursts_left;
}

-- The state that the first call of tick meets, and that call.
unfoldable pub start_probing : Bool → Prober
start_probing visible =
    tick visible (record { stopped = false; bursts_left = burst_count; timer = none; probes = 0 })

-- The function that startProbing returns.
unfoldable pub stop : Prober → Prober
stop p = record p { stopped = true; timer = none }

-- The timeouts that fire, in order, with whether the tab is visible then. A timeout that is not
-- armed does not fire.
unfoldable pub fire : List Bool → Prober → Prober
fire [] p = p
fire (visible ∷ rest) p = fire rest (elim p.timer [ none ↦ p | some delay ↦ tick visible p ])

abbrev pub delay_after : ℕ → ℕ
delay_after n = if ltb n burst_count then burst_interval_ms else steady_interval_ms

Armed : ℕ → Prober → Type 0
Armed n p =
    (p.stopped ≡ false) × (p.bursts_left ≡ burst_count - suc n) × (p.timer ≡ some (delay_after n))

tick-Armed : (n : ℕ) (visible : Bool) (p : Prober) → Armed n p → Armed (suc n) (tick visible p)
unfolding Armed tick
tick-Armed n visible p h = ground arith

fire-tick :
    (n : ℕ) (v : Bool) (vs : List Bool) (p : Prober)
    → Armed n p
    → fire (v ∷ vs) p ≡ fire vs (tick v p)
unfolding Armed fire
fire-tick n v vs p h = ground arith

fire_none : (n : ℕ) (p : Prober) → Armed n p → Armed n (fire [] p)
unfolding fire
fire_none n p h = h

fire-Armed : (n : ℕ) (vs : List Bool) (p : Prober) → Armed n p → Armed (n + length vs) (fire vs p)
fire-Armed n [] p h = subst (λ k. Armed k (fire [] p)) (omega arith) (fire_none n p h)
fire-Armed n (v ∷ vs) p h = subst (Armed (n + suc (length vs))) (sym (fire-tick n v vs p h)) (
    subst (λ k. Armed k (fire vs (tick v p))) (omega arith)
      (fire-Armed (suc n) vs (tick v p) (tick-Armed n v p h)))

start_probing-Armed : (visible : Bool) → Armed 0 (start_probing visible)
unfolding start_probing Armed tick
start_probing-Armed visible = ground arith

Armed-timer : (n : ℕ) (p : Prober) → Armed n p → p.timer ≡ some (delay_after n)
unfolding Armed
Armed-timer n p h = h.2

-- However often the tab was visible, the delay behind the first eight calls of tick is 250 ms and
-- that behind each later one is 10 s, as long as nobody stops the prober.
pub start_probing-delay :
    (visible : Bool) (vs : List Bool)
    → (fire vs (start_probing visible)).timer ≡ some (delay_after (length vs))
start_probing-delay visible vs =
    Armed-timer (0 + length vs) _ (fire-Armed 0 vs _ (start_probing-Armed visible))
    ∙ ap (λ k. some (delay_after k)) (omega arith)

-- A prober that was stopped sends nothing more and arms no timeout.
pub fire-stop : (vs : List Bool) (p : Prober) → fire vs (stop p) ≡ stop p
unfolding fire stop
fire-stop [] p = refl
fire-stop (v ∷ vs) p = fire-stop vs p
