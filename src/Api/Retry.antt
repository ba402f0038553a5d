-- ===== src/Api/Retry.antt =====
-- apps/web/src/components/providers.tsx: when a query that failed is asked again.
--
-- The query library asks `retry` after each failure, with how many came before it, and stops where it
-- says no; a failure is an ApiError's status, or none for one that is no ApiError.
use youtube_rooms.Prelude.{
  ℕ, suc, ◌+◌, ◌≤◌, ◌≡◌, refl, Bool, true, false, not, ◌&&◌, Option, none, some, List, [], ◌∷◌,
  arith, ltb, leb, ◌==◌, if◌then◌else◌,
}
use youtube_rooms.Api.Errors.{ApiError, is_transient}

-- A status for which it would fail identically.
abbrev pub is_permanent : Option ℕ → Bool
is_permanent none = false
is_permanent (some status) = leb 400 status && ltb status 500 && not (status == 429)

-- retry
unfoldable pub retry : ℕ → Option ℕ → Bool
retry failure_count status = if is_permanent status then false else ltb failure_count 2

-- How often a query is asked that fails in these ways, one after the other, and then succeeds.
unfoldable pub asked : ℕ → List (Option ℕ) → ℕ
unfolding retry
asked failure_count [] = 1
asked failure_count (status ∷ later) =
    let rest = asked (suc failure_count) later in if retry failure_count status then suc rest else 1

-- An error that isTransient is no permanent one.
pub is_transient-is_permanent {ℓ} :
    {N : Type ℓ} (e : ApiError N) → is_transient e ≡ true → is_permanent (some e.status) ≡ false
unfolding is_transient
is_transient-is_permanent e h = ground arith

asked-le : (n : ℕ) (failures : List (Option ℕ)) → n ≤ 2 → asked n failures + n ≤ 3
unfolding asked retry
asked-le n [] h = omega arith
asked-le n (f ∷ fs) h = ground (arith, asked-le (suc n) fs)

-- A query is asked at most three times, and once where the first failure is permanent.
pub asked-bounds :
    (failures : List (Option ℕ)) (first : Option ℕ)
    → (asked 0 failures ≤ 3) × (is_permanent first ≡ true → asked 0 (first ∷ failures) ≡ 1)
unfolding asked retry
asked-bounds failures first = (omega (arith, asked-le 0 failures), λ h. rw h refl)
