-- ===== src/Api/Refresh.antt =====
-- How often apps/web/src/lib/api.ts asks: for a token, and for the same thing.
use youtube_rooms.Prelude.{
  ℕ, zero, suc, ◌+◌, ◌≤◌, ◌≡◌, refl, sym, subst, Bool, true, false, not, ◌&&◌, ◌==◌, Option, none,
  some, List, [], ◌∷◌, arith, get_elem?, set, map, All, All-append, All-imp, All-get_elem?,
  if◌then◌else◌,
}
use youtube_rooms.Api.{
  Phase, fetching, awaiting_refresh, rejected, resolved, is_ok, Call, Client, new, api,
  refresh_access_token, respond, at_phase, at_call, on_response, schedule_refresh,
  cancel_scheduled_refresh, resume_at, resume, give_up_at, give_up, on_refreshed, refresh_delay_ms,
  Event, step, run,
}

abbrev pub awaits : Phase → Bool
awaits awaiting_refresh = true
awaits _ = false

abbrev pub times : Bool → ℕ
times true = 2
times false = 1

-- Fetched once, or twice where it was repeated; it waits only while a refresh is in flight.
IsBounded : Bool → Call → Type 0
IsBounded in_flight call =
    (call.fetches ≤ times call.skip_auth_retry)
    × (awaits call.phase ≡ true → in_flight ≡ true)
    × (awaits call.phase ≡ true → call.skip_auth_retry ≡ false)

Inv : Client → Type 0
Inv c =
    (c.started ≡ c.settled + (if c.refresh_in_flight then 1 else 0))
    × All (IsBounded c.refresh_in_flight) c.calls

module _ {ℓ κ} {A : Type ℓ} (P : A → Type κ) where
  All-set : (xs : List A) (i : ℕ) (v : A) → All P xs → P v → All P (set xs i v)
  All-set [] i v h p = tt
  All-set (x ∷ xs) zero v h p = (p, h.1)
  All-set (x ∷ xs) (suc i) v h p = (h.0, All-set xs i v h.1 p)

module _ {ℓ κ μ} {A : Type ℓ} (P : A → Type κ) (Q : A → Type μ) where
  All-map : (f : A → A) (xs : List A) → ((a : A) → P a → Q (f a)) → All P xs → All Q (map f xs)
  All-map f [] g h = tt
  All-map f (x ∷ xs) g h = (g x h.0, All-map f xs g h.1)

resume-IsBounded : (call : Call) → IsBounded true call → IsBounded false (resume call)
unfolding resume resume_at IsBounded
resume-IsBounded call h = ground arith

give_up-IsBounded : (call : Call) → IsBounded true call → IsBounded false (give_up call)
unfolding give_up give_up_at IsBounded
give_up-IsBounded call h = ground arith

IsBounded-later : (b : Bool) (call : Call) → IsBounded b call → IsBounded true call
unfolding IsBounded
IsBounded-later b call h = (h.0, λ w. refl, h.2)

refresh_access_token_lem :
    (c : Client)
    → c.started ≡ c.settled + (if c.refresh_in_flight then 1 else 0)
    → ((refresh_access_token c).refresh_in_flight ≡ true)
      × ((refresh_access_token c).calls ≡ c.calls)
      × ((refresh_access_token c).started
          ≡ (refresh_access_token c).settled
            + (if (refresh_access_token c).refresh_in_flight then 1 else 0))
unfolding refresh_access_token
refresh_access_token_lem c e = ground arith

-- A refresh makes a client whose calls wait at most for one.
refresh_access_token-Inv :
    (c : Client)
    → c.started ≡ c.settled + (if c.refresh_in_flight then 1 else 0)
    → All (IsBounded true) c.calls
    → Inv (refresh_access_token c)
unfolding Inv
refresh_access_token-Inv c e h =
    let r = refresh_access_token_lem c e in
    (
      r.2,
      subst (λ b. All (IsBounded b) (refresh_access_token c).calls) (sym r.0)
          (subst (All (IsBounded true)) (sym r.1) h),
    )

Inv-later : (c : Client) → Inv c → All (IsBounded true) c.calls
unfolding Inv
Inv-later c h =
    All-imp (IsBounded c.refresh_in_flight) (IsBounded true) c.calls
      (λ a k. IsBounded-later c.refresh_in_flight a k) h.1

call-IsBounded :
    (c : Client) (i : ℕ) (call : Call)
    → Inv c
    → get_elem? c.calls i ≡ some call
    → IsBounded c.refresh_in_flight call
unfolding Inv
call-IsBounded c i call h e = All-get_elem? (IsBounded c.refresh_in_flight) c.calls i h.1 e

-- A call that settles in one way or the other waits no more.
finish-Inv :
    (c : Client) (i : ℕ) (call : Call) (phase : Phase)
    → Inv c
    → IsBounded c.refresh_in_flight call
    → awaits phase ≡ false
    → Inv (record c { calls = set c.calls i (record call { phase = phase }) })
unfolding Inv IsBounded
finish-Inv c i call phase h k a = (
  h.0,
  All-set (IsBounded c.refresh_in_flight) c.calls i (record call { phase = phase }) h.1
      (k.0, λ w. cc, λ w. cc),
)

await-Inv :
    (c : Client) (i : ℕ) (call : Call)
    → Inv c
    → IsBounded c.refresh_in_flight call
    → call.skip_auth_retry ≡ false
    → Inv (
        refresh_access_token
          (record c { calls = set c.calls i (record call { phase = awaiting_refresh }) }))
unfolding Inv IsBounded
await-Inv c i call h k s =
    refresh_access_token-Inv
      (record c { calls = set c.calls i (record call { phase = awaiting_refresh }) }) h.0
      (All-set (IsBounded true) c.calls i (record call { phase = awaiting_refresh }) (Inv-later c h)
        (k.0, λ w. refl, λ w. s))

respond-Inv :
    (c : Client) (i : ℕ) (response : Option ℕ) (call : Call)
    → Inv c
    → IsBounded c.refresh_in_flight call
    → Inv (respond i response call c)
unfolding respond
respond-Inv c i none call h k = finish-Inv c i call rejected h k refl
respond-Inv c i (some status) call h k = branches ((status == 401) && not call.skip_auth_retry) refl
  where
    branches :
        (b : Bool)
        → ((status == 401) && not call.skip_auth_retry) ≡ b
        → Inv (
            if b
            then refresh_access_token
                (record c { calls = set c.calls i (record call { phase = awaiting_refresh }) })
            else record c {
              calls =
                  set c.calls i
                    (record call { phase = if is_ok status then resolved else rejected });
            })
    branches true e = await-Inv c i call h k (ground (arith, e))
    branches false e =
        finish-Inv c i call (if is_ok status then resolved else rejected) h k (ground arith)

at_phase-Inv :
    (c : Client) (i : ℕ) (response : Option ℕ) (call : Call) (phase : Phase)
    → Inv c
    → IsBounded c.refresh_in_flight call
    → Inv (at_phase phase i response call c)
unfolding at_phase
at_phase-Inv c i response call fetching h k = respond-Inv c i response call h k
at_phase-Inv c i response call _ h k = h

at_call-Inv :
    (c : Client) (i : ℕ) (response : Option ℕ) (o : Option Call)
    → Inv c
    → get_elem? c.calls i ≡ o
    → Inv (at_call o i response c)
unfolding at_call
at_call-Inv c i response none h e = h
at_call-Inv c i response (some call) h e =
    at_phase-Inv c i response call call.phase h (call-IsBounded c i call h e)

settle-Inv :
    (c : Client) (f : Call → Call) (token timer : Option ℕ)
    → c.refresh_in_flight ≡ true
    → ((call : Call) → IsBounded true call → IsBounded false (f call))
    → Inv c
    → Inv (record c {
      access_token = token;
      refresh_in_flight = false;
      refresh_timer = timer;
      settled = suc c.settled;
      calls = map f c.calls;
    })
unfolding Inv
settle-Inv c f token timer e g h =
    (ground arith, All-map (IsBounded true) (IsBounded false) f c.calls g (Inv-later c h))

times_pos : (b : Bool) → 1 ≤ times b
times_pos true = omega arith
times_pos false = omega arith

on_refreshed-Inv : (result : Option (ℕ × ℕ)) (c : Client) → Inv c → Inv (on_refreshed result c)
unfolding on_refreshed schedule_refresh
on_refreshed-Inv none c h = branches c.refresh_in_flight refl
  where
    branches :
        (b : Bool)
        → c.refresh_in_flight ≡ b
        → Inv (
            if b
            then record c {
              access_token = none;
              refresh_in_flight = false;
              settled = suc c.settled;
              calls = map give_up c.calls;
            }
            else c)
    branches true e = settle-Inv c give_up none c.refresh_timer e give_up-IsBounded h
    branches false e = h
on_refreshed-Inv (some t) c h = branches c.refresh_in_flight refl
  where
    branches :
        (b : Bool)
        → c.refresh_in_flight ≡ b
        → Inv (
            if b
            then schedule_refresh t.1 (record c {
              access_token = some t.0;
              refresh_in_flight = false;
              settled = suc c.settled;
              calls = map resume c.calls;
            })
            else c)
    branches true e =
        settle-Inv c resume (some t.0) (some (refresh_delay_ms t.1)) e resume-IsBounded h
    branches false e = h

api-Inv : (skip : Bool) (c : Client) → Inv c → Inv (api skip c)
unfolding Inv api IsBounded
api-Inv skip c h = (
  h.0,
  All-append (IsBounded c.refresh_in_flight) c.calls _ h.1 ((times_pos skip, λ w. cc, λ w. cc), tt),
)

step-Inv : (c : Client) (e : Event) → Inv c → Inv (step c e)
unfolding step on_response cancel_scheduled_refresh Inv
step-Inv c (Event.calls skip) h = api-Inv skip c h
step-Inv c (Event.responds i response) h = at_call-Inv c i response (get_elem? c.calls i) h refl
step-Inv c Event.refreshes h = refresh_access_token-Inv c h.0 (Inv-later c h)
step-Inv c Event.cancels h = h
step-Inv c (Event.settles result) h = on_refreshed-Inv result c h

run_from-Inv : (c : Client) (es : List Event) → Inv c → Inv (run c es)
unfolding run
run_from-Inv c [] h = h
run_from-Inv c (e ∷ es) h = run_from-Inv (step c e) es (step-Inv c e h)

new-Inv : Inv new
unfolding new Inv
new-Inv = (refl, tt)

Inv-call :
    (c : Client) (call : Call)
    → Inv c
    → IsBounded c.refresh_in_flight call
    → (c.started ≡ c.settled + (if c.refresh_in_flight then 1 else 0))
      × (call.fetches ≤ 2)
      × ((awaits call.phase && not c.refresh_in_flight) ≡ false)
unfolding Inv IsBounded
Inv-call c call h k = (h.0, ground arith, ground arith)

-- However many calls are answered with 401 at once, at most one refresh is under way; each call is
-- fetched at most twice; and none waits for a refresh that is not under way.
pub run-bounded :
    (es : List Event) (i : ℕ) (call : Call)
    → get_elem? (run new es).calls i ≡ some call
    → ((run new es).started
        ≡ (run new es).settled + (if (run new es).refresh_in_flight then 1 else 0))
      × (call.fetches ≤ 2)
      × ((awaits call.phase && not (run new es).refresh_in_flight) ≡ false)
run-bounded es i call e =
    let h = run_from-Inv new es new-Inv in
    Inv-call (run new es) call h (call-IsBounded (run new es) i call h e)
