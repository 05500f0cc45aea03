-- ===== src/IndexCache/Eviction.antt =====
-- The bound of the cache and what a lookup finds after each operation.
use ml_service.Prelude.{
  ℕ, ◌≤◌, ◌≡◌, refl, ap, sym, ◌∙◌, ◌⊎◌, Option-cases, UniqueKeys-erase, lookup-erase_self, inl, inr,
  Bool-cases, Option, none, some, [], ◌∷◌, ◌++◌, length, arith, ltb, ◌==◌, ==_iff, ==_refl, Dict,
  lookup, erase, UniqueKeys, if◌then◌else◌,
}
use ml_service.IndexCache.{move_to_end, evict, get, put}

module _ {V : Type 0} where
  length-evict : (n : ℕ) (d : Dict V) → length (evict n d) ≤ n
  unfolding evict
  length-evict n [] = ground arith
  length-evict n (e ∷ d) = ground (arith, length-evict n d)

  pub lookup-erase :
      (j k : ℕ) (d : Dict V)
      → UniqueKeys d
      → lookup j (erase k d) ≡ (if j == k then none else lookup j d)
  lookup-erase j k [] u = ground arith
  lookup-erase j k ((i, w) ∷ d) u =
      ground (arith, u.0, lookup-erase j k d u.1, ==_iff j i, ==_iff k i, ==_iff j k)

  lookup-snoc :
      (j k : ℕ) (v : V) (d : Dict V)
      → lookup j (d ++ (k, v) ∷ []) ≡ elim (lookup j d) as (λ _. Option V) [
        | none ↦ if j == k then some v else none
        | some w ↦ some w
      ]
  lookup-snoc j k v [] = refl
  lookup-snoc j k v ((i, w) ∷ d) = ground (arith, lookup-snoc j k v d)

  lookup-evict :
      (j n : ℕ) (w : V) (d : Dict V)
      → UniqueKeys d
      → lookup j (evict n d) ≡ some w
      → lookup j d ≡ some w
  unfolding evict
  lookup-evict j n w [] u h = h
  lookup-evict j n w ((i, x) ∷ d) u h = elim (Bool-cases (ltb n (length ((i, x) ∷ d)))) [
    | inl over ↦
        let rest = lookup-evict j n w d u.1 (ground (arith, over, h)) in
        elim (Bool-cases (j == i)) [
          | inl same ↦ absurd (cc (u.0, rest, ap (λ k. lookup k d) ((==_iff j i).0 same)))
          | inr other ↦ rw other rest
        ]
    | inr fits ↦ ground (arith, fits, h)
  ]

  lookup-evict_last :
      (n k : ℕ) (v : V) (d : Dict V)
      → 1 ≤ n
      → lookup k d ≡ none
      → lookup k (evict n (d ++ (k, v) ∷ [])) ≡ some v
  unfolding evict
  lookup-evict_last n k v [] p e = ground (arith, ==_refl k)
  lookup-evict_last n k v ((i, x) ∷ d) p e =
      ground (arith, e, p, ==_refl k, lookup-snoc k k v d, lookup-evict_last n k v d p)

  UniqueKeys-evict : (n : ℕ) (d : Dict V) → UniqueKeys d → UniqueKeys (evict n d)
  unfolding evict
  UniqueKeys-evict n [] u = u
  UniqueKeys-evict n ((i, x) ∷ d) u = elim (Bool-cases (ltb n (length ((i, x) ∷ d)))) [
    | inl over ↦ rw over (UniqueKeys-evict n d u.1)
    | inr fits ↦ rw fits u
  ]

  UniqueKeys-snoc :
      (k : ℕ) (v : V) (d : Dict V)
      → UniqueKeys d
      → lookup k d ≡ none
      → UniqueKeys (d ++ (k, v) ∷ [])
  UniqueKeys-snoc k v [] u e = (refl, tt)
  UniqueKeys-snoc k v ((i, x) ∷ d) u e =
      ground (arith, u.0, lookup-snoc i k v d, UniqueKeys-snoc k v d u.1, ==_iff i k, ==_iff k i)

  lookup-move_to_end :
      (j k : ℕ) (v : V) (d : Dict V)
      → UniqueKeys d
      → lookup j (move_to_end k v d) ≡ (if j == k then some v else lookup j d)
  lookup-move_to_end j k v d u =
      ground (arith, lookup-snoc j k v (erase k d), lookup-erase j k d u, ==_iff j k)

  pub UniqueKeys-put : (n k : ℕ) (v : V) (d : Dict V) → UniqueKeys d → UniqueKeys (put n k v d)
  unfolding put
  UniqueKeys-put n k v d u =
      UniqueKeys-evict n (move_to_end k v d)
        (UniqueKeys-snoc k v (erase k d) (UniqueKeys-erase k d u) (lookup-erase_self k d u))

  pub lookup-put :
      (n j k : ℕ) (v w : V) (d : Dict V)
      → UniqueKeys d
      → lookup j (put n k v d) ≡ some w
      → (if j == k then some v else lookup j d) ≡ some w
  unfolding put
  lookup-put n j k v w d u h =
      sym (lookup-move_to_end j k v d u)
      ∙ lookup-evict j n w (move_to_end k v d)
          (UniqueKeys-snoc k v (erase k d) (UniqueKeys-erase k d u) (lookup-erase_self k d u)) h

  -- A cache of at least one place: after a `put` it is within its bound, the entry put is found, and
  -- any other key is either gone or has the entry it had; no key is twice in it.
  pub put-get :
      (n j k : ℕ) (v : V) (d : Dict V)
      → 1 ≤ n
      → UniqueKeys d
      → (length (put n k v d) ≤ n)
        × UniqueKeys (put n k v d)
        × ((get k (put n k v d)).0 ≡ some v)
        × (((get j (put n k v d)).0 ≡ none)
            ⊎ ((get j (put n k v d)).0 ≡ (if j == k then some v else lookup j d)))
  unfolding put get
  put-get n j k v d p u = (
    length-evict n (move_to_end k v d),
    UniqueKeys-put n k v d u,
    lookup-evict_last n k v (erase k d) p (lookup-erase_self k d u),
    elim (Option-cases (lookup j (put n k v d))) [
      | inl gone ↦ inl gone
      | inr (w, found) ↦ inr (found ∙ sym (lookup-put n j k v w d u found))
    ],
  )

  -- Reading moves an entry to the end and changes what no key finds.
  pub lookup-get : (j k : ℕ) (d : Dict V) → UniqueKeys d → lookup j (get k d).1 ≡ lookup j d
  unfolding get
  lookup-get j k d u = elim (Option-cases (lookup k d)) [
    | inl gone ↦ rw gone refl
    | inr (w, found) ↦ rw found (
        lookup-move_to_end j k w d u ∙ elim (Bool-cases (j == k)) [
          | inl same ↦ rw same (sym (ap (λ i. lookup i d) ((==_iff j k).0 same) ∙ found))
          | inr other ↦ rw other refl
        ])
  ]

  pub UniqueKeys-get : (k : ℕ) (d : Dict V) → UniqueKeys d → UniqueKeys (get k d).1
  unfolding get
  UniqueKeys-get k d u = elim (Option-cases (lookup k d)) [
    | inl gone ↦ rw gone u
    | inr (w, found) ↦
        rw found
          (UniqueKeys-snoc k w (erase k d) (UniqueKeys-erase k d u) (lookup-erase_self k d u))
  ]
