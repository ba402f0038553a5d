-- ===== src/Debounce.antt =====
-- apps/web/src/lib/utils.ts: the trailing-edge debounce.
use youtube_rooms.Prelude.{
  ℕ, ◌-◌, ◌<◌, ◌≡◌, refl, ◌∙◌, ap, Option, none, some, List, [], ◌∷◌, leb, if◌then◌else◌, arith,
}

-- The timeout that is armed: what is left of it and the arguments; and the calls of `fn`, newest
-- first, each with its arguments.
pub record Debounced {ℓ} (A : Type ℓ) : Type ℓ where
  pub timer : Option (ℕ × A)
  pub called : List A

module _ {ℓ} {A : Type ℓ} where
  abbrev pub blank : Debounced A
  blank = record { timer = none; called = [] }

  -- A call of what debounce returns.
  unfoldable pub call : ℕ → A → Debounced A → Debounced A
  call wait_ms args d = record d { timer = some (wait_ms, args) }

  abbrev pub fire_after : ℕ → Option (ℕ × A) → Debounced A → Debounced A
  fire_after ms none d = d
  fire_after ms (some t) d =
      if leb t.0 ms
      then record { timer = none; called = t.1 ∷ d.called }
      else record d { timer = some (t.0 - ms, t.1) }

  -- Time that passes.
  unfoldable pub pass : ℕ → Debounced A → Debounced A
  pass ms d = fire_after ms d.timer d

  -- Calls, each behind a pause.
  unfoldable pub run : ℕ → Debounced A → List (ℕ × A) → Debounced A
  run wait_ms d [] = d
  run wait_ms d (c ∷ cs) = run wait_ms (call wait_ms c.1 (pass c.0 d)) cs

  -- Every pause is shorter than the wait.
  abbrev pub IsBurst : ℕ → List (ℕ × A) → Type 0
  IsBurst wait_ms [] = Unit
  IsBurst wait_ms (c ∷ cs) = (c.0 < wait_ms) × IsBurst wait_ms cs

  abbrev pub last : A → List (ℕ × A) → A
  last a [] = a
  last a (c ∷ cs) = last c.1 cs

  pass-called :
      (wait_ms ms : ℕ) (a : A) (d : Debounced A)
      → d.timer ≡ some (wait_ms, a)
      → (pass ms d).called ≡ (if leb wait_ms ms then a ∷ d.called else d.called)
  unfolding pass
  pass-called wait_ms ms a d t = ground arith

  burst :
      (wait_ms : ℕ) (a : A) (cs : List (ℕ × A)) (d : Debounced A)
      → IsBurst wait_ms cs
      → d.timer ≡ some (wait_ms, a)
      → ((run wait_ms d cs).timer ≡ some (wait_ms, last a cs))
        × ((run wait_ms d cs).called ≡ d.called)
  unfolding run call pass
  burst wait_ms a [] d b t = (t, refl)
  burst wait_ms a (c ∷ cs) d b t =
      let armed = call wait_ms c.1 (pass c.0 d) in
      let (timer, called) = burst wait_ms c.1 cs armed b.1 refl in
      (timer, called ∙ ground (arith, pass-called wait_ms c.0 a d t, b.0))

  -- Of a burst of calls, each sooner after the last than the wait, the function is called once, with
  -- the arguments of the last one, when the wait has passed since; and not before.
  pub pass-run :
      (wait_ms ms : ℕ) (a : A) (cs : List (ℕ × A)) (d : Debounced A)
      → IsBurst wait_ms cs
      → (pass ms (run wait_ms (call wait_ms a d) cs)).called
        ≡ (if leb wait_ms ms then last a cs ∷ d.called else d.called)
  unfolding pass call
  pass-run wait_ms ms a cs d b =
      let (timer, called) = burst wait_ms a cs (call wait_ms a d) b refl in
      pass-called wait_ms ms (last a cs) (run wait_ms (call wait_ms a d) cs) timer
      ∙ ap (λ l. if leb wait_ms ms then last a cs ∷ l else l) called
