-- ===== src/Prelude/Sort.antt =====
-- Array.prototype.sort: a stable sort by a comparison of keys, and what it keeps.
use youtube_rooms.Prelude.{
  ℕ, suc, ◌≤◌, ◌≡◌, refl, Bool, List, [], ◌∷◌, length, filter, All, true, false, if◌then◌else◌,
  arith, leb, leb→le, Bool-cases, inl, inr,
}

module _ {ℓ} {A : Type ℓ} (before : A → A → Bool) where
  -- `before x y`: x may stand before y.
  unfoldable pub insert : A → List A → List A
  insert x [] = x ∷ []
  insert x (y ∷ ys) = if before x y then x ∷ y ∷ ys else y ∷ insert x ys

  unfoldable pub sort : List A → List A
  unfolding insert
  sort [] = []
  sort (x ∷ xs) = insert x (sort xs)

  length-insert : (x : A) (ys : List A) → length (insert x ys) ≡ suc (length ys)
  unfolding insert
  length-insert x [] = refl
  length-insert x (y ∷ ys) = ground (arith, length-insert x ys)

  pub length-sort : (xs : List A) → length (sort xs) ≡ length xs
  unfolding sort
  length-sort [] = refl
  length-sort (x ∷ xs) = omega (arith, length-insert x (sort xs), length-sort xs)

  All-insert {κ} : (P : A → Type κ) (x : A) (ys : List A) → P x → All P ys → All P (insert x ys)
  unfolding insert
  All-insert P x [] p h = (p, tt)
  All-insert P x (y ∷ ys) p h = ground (arith, All-insert P x ys p h.1)

  pub All-sort {κ} : (P : A → Type κ) (xs : List A) → All P xs → All P (sort xs)
  unfolding sort
  All-sort P [] h = tt
  All-sort P (x ∷ xs) h = All-insert P x (sort xs) h.0 (All-sort P xs h.1)

  All-uninsert {κ} : (P : A → Type κ) (x : A) (ys : List A) → All P (insert x ys) → P x × All P ys
  unfolding insert
  All-uninsert P x [] h = h
  All-uninsert P x (y ∷ ys) h = ground (arith, All-uninsert P x ys)

  pub All-unsort {κ} : (P : A → Type κ) (xs : List A) → All P (sort xs) → All P xs
  unfolding sort
  All-unsort P [] h = tt
  All-unsort P (x ∷ xs) h =
      let (p, rest) = All-uninsert P x (sort xs) h in (p, All-unsort P xs rest)

abbrev pub IsSorted {ℓ} : {A : Type ℓ} → (A → A → Bool) → List A → Type 0
IsSorted before [] = Unit
IsSorted before (x ∷ xs) = All (λ y. before x y ≡ true) xs × IsSorted before xs

-- Sorted by a number: each key is at most the keys behind it.
module _ {ℓ} {A : Type ℓ} (key : A → ℕ) where
  abbrev pub by_key : A → A → Bool
  by_key a b = leb (key a) (key b)

  abbrev pub AtLeast : ℕ → A → Type 0
  AtLeast k y = k ≤ key y

  abbrev pub IsSortedBy : List A → Type 0
  IsSortedBy [] = Unit
  IsSortedBy (x ∷ xs) = All (AtLeast (key x)) xs × IsSortedBy xs

  AtLeast-mono : (j k : ℕ) (xs : List A) → j ≤ k → All (AtLeast k) xs → All (AtLeast j) xs
  AtLeast-mono j k [] h a = tt
  AtLeast-mono j k (x ∷ xs) h a = (omega arith, AtLeast-mono j k xs h a.1)

  insert-IsSortedBy : (x : A) (ys : List A) → IsSortedBy ys → IsSortedBy (insert by_key x ys)
  unfolding insert
  insert-IsSortedBy x [] h = (tt, tt)
  insert-IsSortedBy x (y ∷ ys) h = elim (Bool-cases (by_key x y)) [
    | inl le ↦ rw le ((leb→le _ _ le, AtLeast-mono (key x) (key y) ys (leb→le _ _ le) h.0), h)
    | inr gt ↦
        rw gt
          (All-insert by_key (AtLeast (key y)) x ys (ground arith) h.0, insert-IsSortedBy x ys h.1)
  ]

  pub sort-IsSortedBy : (xs : List A) → IsSortedBy (sort by_key xs)
  unfolding sort
  sort-IsSortedBy [] = tt
  sort-IsSortedBy (x ∷ xs) = insert-IsSortedBy x (sort by_key xs) (sort-IsSortedBy xs)

-- Sorted by a comparison that is total and transitive, each element before all those behind it.
module _ {ℓ} {A : Type ℓ} (before : A → A → Bool)
    (total : (x y : A) → before x y ≡ false → before y x ≡ true)
    (trans : (x y z : A) → before x y ≡ true → before y z ≡ true → before x z ≡ true) where
  All-trans :
      (x y : A) (zs : List A)
      → before x y ≡ true
      → All (λ z. before y z ≡ true) zs
      → All (λ z. before x z ≡ true) zs
  All-trans x y [] h a = tt
  All-trans x y (z ∷ zs) h a = (trans x y z h a.0, All-trans x y zs h a.1)

  insert-IsSorted :
      (x : A) (ys : List A) → IsSorted before ys → IsSorted before (insert before x ys)
  unfolding insert
  insert-IsSorted x [] h = (tt, tt)
  insert-IsSorted x (y ∷ ys) h = elim (Bool-cases (before x y)) [
    | inl le ↦ rw le (((le, All-trans x y ys le h.0), h))
    | inr gt ↦ rw gt (
      All-insert before (λ z. before y z ≡ true) x ys (total x y gt) h.0,
      insert-IsSorted x ys h.1,
    )
  ]

  pub sort-IsSorted : (xs : List A) → IsSorted before (sort before xs)
  unfolding sort
  sort-IsSorted [] = tt
  sort-IsSorted (x ∷ xs) = insert-IsSorted x (sort before xs) (sort-IsSorted xs)

-- A sort keeps each element as often as it was there.
module _ {ℓ} {A : Type ℓ} (before : A → A → Bool) (p : A → Bool) where
  count-insert :
      (x : A) (ys : List A) → length (filter p (insert before x ys)) ≡ length (filter p (x ∷ ys))
  unfolding insert
  count-insert x [] = refl
  count-insert x (y ∷ ys) = ground (arith, count-insert x ys)

  pub count-sort : (xs : List A) → length (filter p (sort before xs)) ≡ length (filter p xs)
  unfolding sort
  count-sort [] = refl
  count-sort (x ∷ xs) = ground (arith, count-insert x (sort before xs), count-sort xs)
