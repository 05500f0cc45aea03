-- ===== src/Prelude/Sort.antt =====
-- Python's `sorted`: a stable sort, by the test that says which of two elements must come first.
use mathlib.Core.Path.{◌≡◌}
use mathlib.Core.Logic.{◌⊎◌, inl, inr}
use mathlib.Core.Bool.{Bool}
use mathlib.Core.List.{List, [], ◌∷◌}
use native.Mathlib.Omega.{arith}
use ml_service.Prelude.Tests.{if◌then◌else◌, Bool-cases}
use ml_service.Prelude.Lists.{In, All}
use ml_service.Prelude.Int.{ℤ, ◌≤ℤ◌, ltb_ℤ}

module _ {ℓ} {A : Type ℓ} where
  -- `x` goes in front of the first element that need not precede it.
  abbrev pub place : (A → A → Bool) → A → List A → List A
  place before x [] = x ∷ []
  place before x (y ∷ ys) = if before y x then y ∷ place before x ys else x ∷ y ∷ ys

  abbrev pub sorted : (A → A → Bool) → List A → List A
  sorted before [] = []
  sorted before (x ∷ xs) = place before x (sorted before xs)

-- A relation between every two elements, the earlier one first.
abbrev pub Pairwise : {A : Type 0} → (A → A → Type 0) → List A → Type 0
Pairwise R [] = Unit
Pairwise R (x ∷ xs) = All (R x) xs × Pairwise R xs

module _ {A : Type 0} (before : A → A → Bool) where
  In-place : (a x : A) (ys : List A) → In a (place before x ys) → (a ≡ x) ⊎ In a ys
  In-place a x [] h = h
  In-place a x (y ∷ ys) h = ground (arith, In-place a x ys)

  In-place_self : (x : A) (ys : List A) → In x (place before x ys)
  In-place_self x [] = ground arith
  In-place_self x (y ∷ ys) = ground (arith, In-place_self x ys)

  In-place_other : (a x : A) (ys : List A) → In a ys → In a (place before x ys)
  In-place_other a x [] h = elim h [ ]
  In-place_other a x (y ∷ ys) h = ground (arith, In-place_other a x ys)

  -- Sorting keeps the elements, in both directions.
  pub In-of_sorted : (a : A) (xs : List A) → In a (sorted before xs) → In a xs
  In-of_sorted a [] h = h
  In-of_sorted a (x ∷ xs) h = ground (arith, In-place a x (sorted before xs) h, In-of_sorted a xs)

  pub In-sorted : (a : A) (xs : List A) → In a xs → In a (sorted before xs)
  In-sorted a [] h = h
  In-sorted a (x ∷ xs) (inl e) = ground (arith, In-place_self x (sorted before xs))
  In-sorted a (x ∷ xs) (inr h) = In-place_other a x (sorted before xs) (In-sorted a xs h)

  All-place : (P : A → Type 0) (x : A) (ys : List A) → P x → All P ys → All P (place before x ys)
  All-place P x [] p h = (p, tt)
  All-place P x (y ∷ ys) p h = ground (arith, All-place P x ys p)

  pub All-sorted : (P : A → Type 0) (xs : List A) → All P xs → All P (sorted before xs)
  All-sorted P [] h = tt
  All-sorted P (x ∷ xs) h = All-place P x (sorted before xs) h.0 (All-sorted P xs h.1)

  Pairwise-place :
      (R : A → A → Type 0)
      → ((a b : A) → R a b → R b a)
      → (x : A) (ys : List A) → All (R x) ys
      → Pairwise R ys
      → Pairwise R (place before x ys)
  Pairwise-place R sy x [] h p = (tt, tt)
  Pairwise-place R sy x (y ∷ ys) h p = elim (Bool-cases (before y x)) [
    | inl e ↦ rw e (All-place (R y) x ys (sy x y h.0) p.0, Pairwise-place R sy x ys h.1 p.1)
    | inr e ↦ rw e (h, p)
  ]

  -- A symmetric relation that holds between any two elements still does after the sort.
  pub Pairwise-sorted :
      (R : A → A → Type 0)
      → ((a b : A) → R a b → R b a)
      → (xs : List A) → Pairwise R xs
      → Pairwise R (sorted before xs)
  Pairwise-sorted R sy [] p = tt
  Pairwise-sorted R sy (x ∷ xs) p =
      Pairwise-place R sy x (sorted before xs) (All-sorted (R x) xs p.0)
        (Pairwise-sorted R sy xs p.1)

-- `sorted(xs, key=key, reverse=True)` keeps the order of elements with equal keys.
module _ {A : Type 0} (key : A → ℤ) where
  abbrev pub sorted_desc : List A → List A
  sorted_desc = sorted (λ a b. ltb_ℤ (key b) (key a))

  abbrev pub Descending : List A → Type 0
  Descending [] = Unit
  Descending (x ∷ xs) = All (λ y. key y ≤ℤ key x) xs × Descending xs

  All-le_trans :
      (a b : A) (xs : List A)
      → key a ≤ℤ key b
      → All (λ y. key y ≤ℤ key a) xs
      → All (λ y. key y ≤ℤ key b) xs
  All-le_trans a b [] le h = tt
  All-le_trans a b (x ∷ xs) le h = (omega arith, All-le_trans a b xs le h.1)

  Descending-place :
      (x : A) (ys : List A) → Descending ys → Descending (place (λ a b. ltb_ℤ (key b) (key a)) x ys)
  Descending-place x [] d = (tt, tt)
  Descending-place x (y ∷ ys) d = elim (Bool-cases (ltb_ℤ (key x) (key y))) [
    | inl e ↦ rw e (
      All-place (λ a b. ltb_ℤ (key b) (key a)) (λ z. key z ≤ℤ key y) x ys (ground arith) d.0,
      Descending-place x ys d.1,
    )
    | inr e ↦ rw e ((ground arith, All-le_trans y x ys (ground arith) d.0), d)
  ]

  pub Descending-sorted : (xs : List A) → Descending (sorted_desc xs)
  Descending-sorted [] = tt
  Descending-sorted (x ∷ xs) = Descending-place x (sorted_desc xs) (Descending-sorted xs)
