-- ===== src/Prelude/Best.antt =====
-- The collapse of a list to each student's best element: a dict under the students, where an element
-- takes the place of the one that is there only if its score is higher.
use ml_service.Prelude.Tests.{◌==◌, if◌then◌else◌, Bool-cases}
use ml_service.Prelude.Lists.{In, All-of_In}
use ml_service.Prelude.Sort.{Pairwise}
use ml_service.Prelude.Int.{ℤ, ◌≤ℤ◌, ltb_ℤ}
use ml_service.Prelude.Dicts.{
  Dict, lookup, insert, values, lookup-insert, UniqueKeys, UniqueKeys-insert, lookup-of_In-values,
  In-values_of_lookup,
}
use Prim.Native.Nat.{ℕ}
use mathlib.Core.Path.{◌≡◌, refl, sym, ◌∙◌}
use mathlib.Core.Logic.{◌≢◌, ◌⊎◌, inl, inr}
use mathlib.Core.Bool.{true}
use mathlib.Core.Option.{Option, none, some}
use mathlib.Core.List.{List, [], ◌∷◌, ◌++◌}
use native.Mathlib.Omega.{arith}

module _ {V : Type 0} (student : V → ℕ) (score : V → ℤ) where
  -- `if current is None or v.score > current.score: best[v.student] = v`
  abbrev pub keep_best : Dict V → V → Dict V
  keep_best best v = elim (lookup (student v) best) [
    | none ↦ insert (student v) v best
    | some current ↦ if ltb_ℤ (score current) (score v) then insert (student v) v best else best
  ]

  unfoldable pub collapse : Dict V → List V → Dict V
  collapse best [] = best
  collapse best (v ∷ vs) = collapse (keep_best best v) vs

  pub collapse-append :
      (b : Dict V) (xs ys : List V) → collapse b (xs ++ ys) ≡ collapse (collapse b xs) ys
  unfolding collapse
  collapse-append b [] ys = refl
  collapse-append b (x ∷ xs) ys = collapse-append (keep_best b x) xs ys

  better : Option V → V → V
  better none c = c
  better (some e) c = if ltb_ℤ (score e) (score c) then c else e

  -- What the loop holds for one student.
  best_from : ℕ → Option V → List V → Option V
  best_from j acc [] = acc
  best_from j acc (c ∷ cs) = best_from j (if j == student c then some (better acc c) else acc) cs

  lookup-keep_best :
      (j : ℕ) (b : Dict V) (c : V)
      → lookup j (keep_best b c)
        ≡ (if j == student c then some (better (lookup j b) c) else lookup j b)
  unfolding better
  lookup-keep_best j b c = ground (arith, lookup-insert (student c) j c b)

  lookup-collapse :
      (j : ℕ) (b : Dict V) (cs : List V) → lookup j (collapse b cs) ≡ best_from j (lookup j b) cs
  unfolding collapse best_from
  lookup-collapse j b [] = refl
  lookup-collapse j b (c ∷ cs) =
      lookup-collapse j (keep_best b c) cs ∙ rw (lookup-keep_best j b c) refl

  better-from : (acc : Option V) (c : V) → (some (better acc c) ≡ acc) ⊎ (better acc c ≡ c)
  unfolding better
  better-from none c = inr refl
  better-from (some e) c = ground arith

  better-ge : (acc : Option V) (c : V) → score c ≤ℤ score (better acc c)
  unfolding better
  better-ge none c = omega arith
  better-ge (some e) c = ground arith

  better-ge_old : (e c : V) → score e ≤ℤ score (better (some e) c)
  unfolding better
  better-ge_old e c = ground arith

  best_from-In :
      (j : ℕ) (acc : Option V) (e : V) (cs : List V)
      → best_from j acc cs ≡ some e
      → (acc ≡ some e) ⊎ (In e cs × (student e ≡ j))
  unfolding best_from
  best_from-In j acc e [] h = inl h
  best_from-In j acc e (c ∷ cs) h = elim (Bool-cases (j == student c)) [
    | inl same ↦
        ground
          (arith, same, better-from acc c, best_from-In j (some (better acc c)) e cs, rw same at h)
    | inr other ↦ ground (arith, other, best_from-In j acc e cs, rw other at h)
  ]

  best_from-ge_acc :
      (j : ℕ) (a : V) (cs : List V)
      → (e : V) × (best_from j (some a) cs ≡ some e) × (score a ≤ℤ score e)
  unfolding best_from
  best_from-ge_acc j a [] = (a, refl, omega arith)
  best_from-ge_acc j a (c ∷ cs) = elim (Bool-cases (j == student c)) [
    | inl same ↦
        let (e, found, le) = best_from-ge_acc j (better (some a) c) cs in
        (e, rw same found, omega (arith, le, better-ge_old a c))
    | inr other ↦ let (e, found, le) = best_from-ge_acc j a cs in (e, rw other found, le)
  ]

  best_from-ge :
      (c : V) (acc : Option V) (cs : List V)
      → In c cs
      → (e : V) × (best_from (student c) acc cs ≡ some e) × (score c ≤ℤ score e)
  unfolding best_from
  best_from-ge c acc [] h = absurd h
  best_from-ge c acc (x ∷ cs) (inl same) =
      let (e, found, le) = best_from-ge_acc (student c) (better acc x) cs in
      let here : (student c == student x) ≡ true = ground (arith, same) in
      (e, rw here found, ground (arith, le, better-ge acc x, same))
  best_from-ge c acc (x ∷ cs) (inr h) =
      best_from-ge c (if student c == student x then some (better acc x) else acc) cs h

  UniqueKeys-keep_best : (b : Dict V) (c : V) → UniqueKeys b → UniqueKeys (keep_best b c)
  UniqueKeys-keep_best b c u = ground (arith, UniqueKeys-insert (student c) c b u)

  pub UniqueKeys-collapse : (b : Dict V) (cs : List V) → UniqueKeys b → UniqueKeys (collapse b cs)
  unfolding collapse
  UniqueKeys-collapse b [] u = u
  UniqueKeys-collapse b (c ∷ cs) u =
      UniqueKeys-collapse (keep_best b c) cs (UniqueKeys-keep_best b c u)

  -- A dict of candidates under their students has one candidate per student.
  Pairwise-values :
      (d : Dict V)
      → UniqueKeys d
      → ((k : ℕ) (c : V) → lookup k d ≡ some c → student c ≡ k)
      → Pairwise (λ a b. student a ≢ student b) (values d)
  Pairwise-values [] u keyed = tt
  Pairwise-values ((j, w) ∷ d) u keyed = (
    All-of_In _ (values d) (λ a m.
        let (k, found) = lookup-of_In-values a d u.1 m in
        ground (arith, found, u.0, keyed j w, keyed k a)),
    Pairwise-values d u.1 (λ k c found. ground (arith, found, u.0, keyed k c)),
  )

  module _ (cs : List V) where
    abbrev pub collapsed : List V
    collapsed = values (collapse [] cs)

    collapsed-keyed :
        (k : ℕ) (e : V) → lookup k (collapse [] cs) ≡ some e → In e cs × (student e ≡ k)
    collapsed-keyed k e h =
        ground (arith, best_from-In k none e cs (sym (lookup-collapse k [] cs) ∙ h))

    pub In-of_collapsed : (e : V) → In e collapsed → In e cs
    In-of_collapsed e m =
        let (k, found) = lookup-of_In-values e _ (UniqueKeys-collapse [] cs tt) m in
        (collapsed-keyed k e found).0

    -- Every candidate is at most the one kept for its student.
    pub collapsed-ge :
        (c : V)
        → In c cs
        → (e : V) × In e collapsed × (student e ≡ student c) × (score c ≤ℤ score e)
    collapsed-ge c m =
        let (e, found, le) = best_from-ge c none cs m in
        let found' : lookup (student c) (collapse [] cs) ≡ some e =
          lookup-collapse (student c) [] cs ∙ found in
        (e, In-values_of_lookup _ e _ found', (collapsed-keyed _ e found').1, le)

    pub collapsed-distinct : Pairwise (λ a b. student a ≢ student b) collapsed
    collapsed-distinct =
        Pairwise-values _ (UniqueKeys-collapse [] cs tt)
          (λ k c found. (collapsed-keyed k c found).1)

  -- The element kept for a student is one of the list, and none of that student scores higher.
  pub lookup-collapse_best :
      (k : ℕ) (e : V) (cs : List V)
      → lookup k (collapse [] cs) ≡ some e
      → In e cs × (student e ≡ k) × ((c : V) → In c cs → student c ≡ k → score c ≤ℤ score e)
  lookup-collapse_best k e cs h =
      let found = collapsed-keyed cs k e h in
      (
        found.0,
        found.1,
        λ c m same.
            let (e', found', le) = best_from-ge c none cs m in
            ground (arith, h, same, le, found', lookup-collapse (student c) [] cs),
      )

  -- A student with an element in the list has one in the dict.
  pub lookup-collapse_covers :
      (c : V) (cs : List V) → In c cs → (e : V) × (lookup (student c) (collapse [] cs) ≡ some e)
  lookup-collapse_covers c cs m =
      let (e, found, le) = best_from-ge c none cs m in
      (e, lookup-collapse (student c) [] cs ∙ found)
